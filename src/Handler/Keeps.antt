-- ===== src/Handler/Keeps.antt =====
-- Where an action leaves the tables, from where its parts leave them.
use puncture.Common.{◌≡◌, refl, ◌⊎◌, inl, inr}
use puncture.Common.Outcome.{Outcome, ok, err, panic}
use puncture.Models.{Tables}
use puncture.Handler.{World, M, continue}

-- The tables after a change that may have failed.
abbrev pub tables_after : {A : Type 0} → Outcome (A × Tables) → Tables → Tables
tables_after (ok (a, db')) db = db'
tables_after (err e) db = db
tables_after (panic e) db = db

-- The tables are as they were, or as a change left them.
abbrev pub Either : Tables → Tables → Tables → Type 0
Either db' before after = (db' ≡ before) ⊎ (db' ≡ after)

pub Either-keeps :
    (P : Tables → Type 0) {db' before after : Tables}
    → Either db' before after
    → P before
    → P after
    → P db'
Either-keeps P (inl same) h k = rw same h
Either-keeps P (inr changed) h k = rw changed k

-- The rest of a request runs if a check passes.
pub continue_keeps :
    {A B : Type 0} (P : Tables → Type 0) (r : Outcome A) (k : A → M B) (w : World)
    → P w.db
    → ((a : A) → r ≡ ok a → P (k a w).1.db)
    → P (continue r k w).1.db
continue_keeps P (ok a) k w h step = step a refl
continue_keeps P (err e) k w h step = h
continue_keeps P (panic e) k w h step = h
