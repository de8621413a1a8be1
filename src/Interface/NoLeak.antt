-- ===== src/Interface/NoLeak.antt =====
-- src/lib/interface.c: a command leaves no user of the session behind.
use blockdevlogger.Base.{
  ℕ, suc, ◌^◌, not, Option, none, some, List, [], ◌∷◌, ◌++◌, leb, ◌==◌, u32, codes,
}
use blockdevlogger.Layout.{default_blocksize, default_header_pad}
use blockdevlogger.Device.{File, M}
use blockdevlogger.Io.Open.{Os}
use blockdevlogger.Blocks.{block_get_validate_master_header}
use blockdevlogger.Write.{write_put_block}
use blockdevlogger.Read.{read_blocks}
use blockdevlogger.Clear.{clear_dev}
use blockdevlogger.Init.{bdl_init_dev}
use blockdevlogger.Interface.State.{
  Parser, Command, pure, ◌>>=◌, ◌>>◌, ask, fail_if, close, on_device, print,
}
use blockdevlogger.Interface.{
  default_pad_char, value, check_all_args_used, argument, natural_argument, is_negative,
  with_device, command_clear, command_validate, command_read, faketimestamp_argument, block_text,
  command_write, command_init,
}
use blockdevlogger.Interface.Users.{
  Moves, Moves-bind, Moves-fail_if, Moves-start, Moves-close, Moves-on_device,
}

module _ {Data : Type 0} (parser : Parser Data) (os : Os) (now : ℕ) (stream_position : File → ℕ)
    (n : ℕ) where
  Moves-argument :
      (text : Option (List ℕ)) (key : List ℕ) (convert get : Data → List ℕ → ℕ × Data) (default : ℕ)
      → Moves n n n (argument parser os now stream_position text key convert get default)
  unfolding argument
  Moves-argument none key convert get default = λ s at. at
  Moves-argument (some text) key convert get default =
      Moves-bind n n n n (ask (λ d. convert d key)) _ (λ s at. at)
        (λ status.
          Moves-bind n n n n (fail_if (not (status == 0))) (λ u. ask (λ d. get d key))
            (Moves-fail_if n _) (λ u s at. at))

  Moves-natural_argument :
      (text : Option (List ℕ)) (key : List ℕ) (default : ℕ)
      → Moves n n n (natural_argument parser os now stream_position text key default)
  unfolding natural_argument
  Moves-natural_argument text key default =
      Moves-bind n n n n
        (argument parser os now stream_position text key parser.cmd_convert_integer_10
          parser.cmd_get_integer default)
        _ (Moves-argument text key _ _ default)
        (λ v.
          Moves-bind n n n n (fail_if (is_negative v)) (λ u. pure v) (Moves-fail_if n _)
            (λ u s at. at))

  -- A command that works on a device and closes it.
  Moves-with :
      {A : Type 0} (device : Option (List ℕ)) (call : M A) (rest : A → Command Data (Unit {0}))
      → ((a : A) → Moves n (suc n) n (rest a))
      → Moves n n n
          (with_device parser os now stream_position device >>= λ _. on_device call >>= rest)
  unfolding with_device check_all_args_used
  Moves-with device call rest h =
      Moves-bind n n (suc n) n (with_device parser os now stream_position device) _
        (Moves-bind n n n (suc n) (check_all_args_used parser os now stream_position) _
          (λ s at. Moves-fail_if n _ s at) (λ u. Moves-start os device n))
        (λ u. Moves-bind n (suc n) (suc n) n (on_device call) rest (Moves-on_device call n) h)

  pub Moves-command_clear : Moves n n n (command_clear parser os now stream_position)
  unfolding command_clear value
  Moves-command_clear =
      Moves-bind n n n n (ask (λ d. parser.cmd_get_value d (codes "dev"))) _ (λ s at. at)
        (λ device. Moves-with device clear_dev (λ _. close) (λ a. Moves-close n n))

  pub Moves-command_validate : Moves n n n (command_validate parser os now stream_position)
  unfolding command_validate value
  Moves-command_validate =
      Moves-bind n n n n (ask (λ d. parser.cmd_get_value d (codes "dev"))) _ (λ s at. at)
        (λ device.
          Moves-with device block_get_validate_master_header (λ _. close) (λ a. Moves-close n n))

  -- The value of a key, and what follows.
  pub Moves-value :
      {A : Type 0} (key : List ℕ) (k : Option (List ℕ) → Command Data A)
      → ((text : Option (List ℕ)) → Moves n n n (k text))
      → Moves n n n (value parser os now stream_position key >>= k)
  unfolding value
  Moves-value key k h = Moves-bind n n n n (ask (λ d. parser.cmd_get_value d key)) k (λ s at. at) h

  -- An argument that is converted, and what follows.
  Moves-with_argument :
      {A : Type 0} (text : Option (List ℕ)) (key : List ℕ) (convert get : Data → List ℕ → ℕ × Data)
      (default : ℕ) (k : ℕ → Command Data A)
      → ((v : ℕ) → Moves n n n (k v))
      → Moves n n n (argument parser os now stream_position text key convert get default >>= k)
  Moves-with_argument text key convert get default k h =
      Moves-bind n n n n (argument parser os now stream_position text key convert get default) k
        (Moves-argument text key convert get default) h

  Moves-with_natural :
      {A : Type 0} (text : Option (List ℕ)) (key : List ℕ) (default : ℕ) (k : ℕ → Command Data A)
      → ((v : ℕ) → Moves n n n (k v))
      → Moves n n n (natural_argument parser os now stream_position text key default >>= k)
  Moves-with_natural text key default k h =
      Moves-bind n n n n (natural_argument parser os now stream_position text key default) k
        (Moves-natural_argument text key default) h

  pub Moves-command_read : Moves n n n (command_read parser os now stream_position)
  unfolding command_read
  Moves-command_read = Moves-value (codes "dev") _ (λ device.
      Moves-value (codes "ts_gteq") _ (λ ts_text. Moves-value (codes "limit") _ (λ limit_text.
        Moves-with_argument ts_text (codes "ts_gteq") parser.cmd_convert_uint64_10
          parser.cmd_get_uint64 0 _
          (λ timestamp_gteq. Moves-with_natural limit_text (codes "limit") 0 _ (λ limit.
            Moves-with device (read_blocks timestamp_gteq limit) (λ dumps. print dumps >> close)
              (λ dumps.
                Moves-bind n (suc n) (suc n) n (print dumps) (λ _. close) (λ s at. at)
                  (λ u. Moves-close n n)))))))

  Moves-faketimestamp_argument :
      (text : Option (List ℕ))
      → Moves n n n (faketimestamp_argument parser os now stream_position text)
  unfolding faketimestamp_argument
  Moves-faketimestamp_argument text =
      Moves-with_argument text (codes "faketimestamp") parser.cmd_convert_integer_10
        parser.cmd_get_integer 0 _
        (λ v.
          Moves-bind n n n n (fail_if (leb (2 ^ 31) (u32 v))) (λ u. pure (u32 v))
            (Moves-fail_if n _) (λ u s at. at))

  Moves-block_text :
      (text : Option (List ℕ)) → Moves n n n (block_text parser os now stream_position text)
  unfolding block_text
  Moves-block_text none = λ s at. at
  Moves-block_text (some []) = λ s at. at
  Moves-block_text (some (x ∷ xs)) = λ s at. at

  pub Moves-command_write : Moves n n n (command_write parser os now stream_position)
  unfolding command_write
  Moves-command_write = Moves-value (codes "dev") _ (λ device.
      Moves-value (codes "appdata") _ (λ appdata_text. Moves-value (codes "timestamp") _ (λ ts_text.
        Moves-value (codes "faketimestamp") _ (λ fake_text.
          Moves-bind n n n n (ask parser.cmd_get_last_argument) _ (λ s at. at)
            (λ last.
              Moves-bind n n n n (block_text parser os now stream_position last) _
                (Moves-block_text last)
                (λ text.
                  Moves-with_argument appdata_text (codes "appdata") parser.cmd_convert_hex_64
                    parser.cmd_get_hex_64 0 _
                    (λ appdata.
                      Moves-with_argument ts_text (codes "timestamp") parser.cmd_convert_uint64_10
                        parser.cmd_get_uint64 0 _
                        (λ timestamp.
                          Moves-bind n n n n
                            (faketimestamp_argument parser os now stream_position fake_text) _
                            (Moves-faketimestamp_argument fake_text)
                            (λ fake.
                              Moves-with device
                                (write_put_block now (text ++ 0 ∷ []) appdata timestamp fake)
                                (λ u. close) (λ u. Moves-close n n))))))))))

  pub Moves-command_init : Moves n n n (command_init parser os now stream_position)
  unfolding command_init
  Moves-command_init = Moves-value (codes "dev") _ (λ device. Moves-value (codes "bs") _ (λ bs_text.
      Moves-value (codes "hpad") _ (λ hpad_text. Moves-value (codes "padchar") _ (λ padchar_text.
        Moves-with_natural bs_text (codes "bs") default_blocksize _ (λ blocksize.
          Moves-with_natural hpad_text (codes "hpad") default_header_pad _ (λ header_pad.
            Moves-with_argument padchar_text (codes "padchar") parser.cmd_convert_hex_byte
              parser.cmd_get_hex_byte default_pad_char _
              (λ padchar.
                Moves-with device
                  (λ f. bdl_init_dev (stream_position f) blocksize header_pad padchar f)
                  (λ u. close) (λ u. Moves-close n n))))))))
