-- ===== src/Inbox/Tests.antt =====
-- The inbox on concrete tables.
use gasu_schedule_bot.Base.{ℕ, ◌≡◌, refl, true, false, none, some, [], ◌∷◌, ok, raise, aware}
use gasu_schedule_bot.Base.Int.{pos}
use gasu_schedule_bot.Sql.{update_where}
use gasu_schedule_bot.Sql.Numbering.{max_plus_one}
use gasu_schedule_bot.Inbox.{
  Inbox, update_key, new_update, enqueue_raw_update, record_processed_update, integrity_error,
}
use gasu_schedule_bot.Inbox.Ledger.{IsConsistent}
use gasu_schedule_bot.Inbox.Steps.{redelivery_ignored, here, next, records, Reach-IsConsistent}

abbrev nothing : Inbox ℕ
nothing = record { updates = []; processed = [] }

abbrev delivered : Inbox ℕ
delivered = record { updates = new_update 1 77 5 100 ∷ []; processed = [] }

abbrev finished : Inbox ℕ
finished = record {
  updates = record (new_update 1 77 5 100) { processed_at = some 120 } ∷ [];
  processed =
      record {
        update_id = 77;
        handler = "reactions";
        outcome = "processed";
        processed_at = 120;
        detail = none;
      }
      ∷ [];
}

delivery :
    enqueue_raw_update (max_plus_one update_key) (aware 100) (pos 77) 5 none nothing
    ≡ ok (true, delivered)
unfolding enqueue_raw_update
delivery = refl

recording :
    record_processed_update (aware 120) 77 "reactions" "processed" none none delivered
    ≡ ok (true, finished)
unfolding record_processed_update update_where
recording = refl

unknown_update :
    record_processed_update (aware 120) 78 "reactions" "processed" none none delivered
    ≡ raise integrity_error
unfolding record_processed_update
unknown_update = refl

redelivery_ignored_example :
    enqueue_raw_update (max_plus_one update_key) (aware 130) (pos 77) 6 none delivered
    ≡ ok (false, delivered)
redelivery_ignored_example =
    redelivery_ignored (max_plus_one update_key) (max_plus_one update_key) (aware 100) (aware 130) 5
      6 none none 130 77 nothing delivery refl

delivered-IsConsistent : IsConsistent delivered
delivered-IsConsistent = record { known = tt; closed = (refl, tt) }

Reach-IsConsistent_example : IsConsistent finished
Reach-IsConsistent_example =
    Reach-IsConsistent delivered-IsConsistent
      (next here (records (aware 120) 77 "reactions" "processed" none none true recording))
