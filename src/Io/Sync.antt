-- ===== src/Io/Sync.antt =====
-- The queue of ranges to sync: what it covers, and its bound.
use mathlib.Core.Option
use blockdevlogger.Base.{
  ℕ, ◌≤◌, ◌<◌, ◌≡◌, refl, ◌↔◌, ◌⊎◌, inl, inr, Option, none, some, Option-cases, Bool-cases, List,
  [], ◌∷◌, ◌++◌, ◌==◌, ==_iff, if◌then◌else◌, length, length-append, arith,
}
use blockdevlogger.Device.{SyncEntry}
use blockdevlogger.Io.{sync_queue_max, join_entry, join_queue, io_update_sync_queue}

-- An address lies in a range.
abbrev pub Within : ℕ → ℕ → ℕ → Type 0
Within start end a = (start ≤ a) × (a < end)

abbrev pub Covers : List SyncEntry → ℕ → Type 0
Covers [] a = ⊥
Covers (entry ∷ queue) a = Within entry.start_address entry.end_address a ⊎ Covers queue a

abbrev pub IsOrdered : List SyncEntry → Type 0
IsOrdered [] = Unit {0}
IsOrdered (entry ∷ queue) = (entry.start_address ≤ entry.end_address) × IsOrdered queue

join_entry-Within :
    (start end a : ℕ) (entry joined : SyncEntry)
    → join_entry start end entry ≡ some joined
    → start ≤ end
    → entry.start_address ≤ entry.end_address
    → (joined.start_address ≤ joined.end_address)
      × (Within joined.start_address joined.end_address a
          ↔ (Within entry.start_address entry.end_address a ⊎ Within start end a))
unfolding join_entry
join_entry-Within start end a entry joined e h k = ground arith

-- What a call promises of the queue that it returns.
abbrev pub Extends : ℕ → ℕ → ℕ → List SyncEntry → List SyncEntry → Type 0
Extends start end a queue queue' =
    IsOrdered queue' × (Covers queue' a ↔ (Covers queue a ⊎ Within start end a))

abbrev Joins : ℕ → ℕ → ℕ → List SyncEntry → Option (List SyncEntry) → Type 0
Joins start end a queue none = Unit {0}
Joins start end a queue (some queue') =
    (length queue' ≡ length queue) × Extends start end a queue queue'

join_queue-Joins :
    (start end a : ℕ) (queue : List SyncEntry)
    → start ≤ end
    → IsOrdered queue
    → Joins start end a queue (join_queue start end queue)
unfolding join_queue
join_queue-Joins start end a [] h v = tt
join_queue-Joins start end a (entry ∷ queue) h v =
    elim (Option-cases (join_entry start end entry)) [
      | inr (joined, e) ↦
          rw (e, join_queue) (here joined (join_entry-Within start end a entry joined e h v.0))
      | inl e ↦
          rw (e, join_queue)
            (later (join_queue start end queue) (join_queue-Joins start end a queue h v.1))
    ]
  where
    here :
        (joined : SyncEntry)
        → (joined.start_address ≤ joined.end_address)
          × (Within joined.start_address joined.end_address a
              ↔ (Within entry.start_address entry.end_address a ⊎ Within start end a))
        → Joins start end a (entry ∷ queue) (some (joined ∷ queue))
    here joined w = (refl, ((w.0, v.1), grind arith))

    later :
        (o : Option (List SyncEntry))
        → Joins start end a queue o
        → Joins start end a (entry ∷ queue) (Option.map (◌∷◌ entry) o)
    later none w = tt
    later (some queue') w = (ground arith, ((v.0, w.1.0), grind arith))

Covers-append :
    (start end a : ℕ) (queue : List SyncEntry)
    → start ≤ end
    → IsOrdered queue
    → Extends start end a queue (queue ++ record { start_address = start; end_address = end } ∷ [])
Covers-append start end a [] h v = ground arith
Covers-append start end a (entry ∷ queue) h v =
    let (v', c) = Covers-append start end a queue h v.1 in ((v.0, v'), grind arith)

-- What a call of `io_update_sync_queue` comes to: on status 0 the queue holds the new range and what
-- it held, and no more; on status 1 it was full and is as it was.
abbrev pub Updates : ℕ → ℕ → ℕ → List SyncEntry → ℕ × List SyncEntry → Type 0
Updates start end a queue (outcome, queue') =
    ((outcome ≡ 0) × (length queue' ≤ sync_queue_max) × Extends start end a queue queue')
    ⊎ ((outcome ≡ 1) × (length queue ≡ sync_queue_max) × (queue' ≡ queue))

-- For every address and every queue of at most 16 ordered entries, `io_update_sync_queue` either
-- returns 0, and then the new queue is ordered, has at most 16 entries, and covers the address
-- exactly when the old queue or the given range does; or it returns 1, and then the queue had 16
-- entries and is unchanged.
pub io_update_sync_queue-Updates :
    (start end a : ℕ) (queue : List SyncEntry)
    → start ≤ end
    → IsOrdered queue
    → length queue ≤ sync_queue_max
    → Updates start end a queue (io_update_sync_queue queue start end)
unfolding io_update_sync_queue
io_update_sync_queue-Updates start end a [] h v n =
    inl (refl, omega arith, Covers-append start end a [] h v)
io_update_sync_queue-Updates start end a (first ∷ queue) h v n =
    by_join (join_queue start end (first ∷ queue))
      (join_queue-Joins start end a (first ∷ queue) h v)
  where
    all : List SyncEntry
    all = first ∷ queue

    appended : List SyncEntry
    appended = all ++ record { start_address = start; end_address = end } ∷ []

    by_room :
        Updates start end a all (if length all == sync_queue_max then (1, all) else (0, appended))
    by_room = elim (Bool-cases (length all == sync_queue_max)) [
      | inl e ↦ rw e (inr (refl, (==_iff _ _).0 e, refl))
      | inr e ↦ rw e (
          inl (
            refl,
            ground (
              arith,
              length-append all (record { start_address = start; end_address = end } ∷ []),
            ),
            Covers-append start end a all h v,
          ))
    ]

    by_join :
        (o : Option (List SyncEntry))
        → Joins start end a all o
        → Updates start end a all (elim o [
          | some joined ↦ (0, joined)
          | none ↦ if length all == sync_queue_max then (1, all) else (0, appended)
        ])
    by_join (some joined) w = inl (refl, omega arith, w.1)
    by_join none w = by_room
