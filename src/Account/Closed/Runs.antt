-- ===== src/Account/Closed/Runs.antt =====
-- Every run of events keeps what every statement keeps, whatever runs at its awaits.
use pairfob.Prelude.{ℕ, zero, suc, ◌≡◌, refl, String, List, [], ◌∷◌, All}
use pairfob.Account.{Db, Env}
use pairfob.Account.System.{Event, call, intent, confirmed, computers, let_go, step, run, nested}
use pairfob.Account.Closed.{IsClosed}
use pairfob.Account.Closed.Routes.{Allowed, step-closed}

decode-nested :
    (depth : ℕ) (env : Env) (scheduler : Db → List Event)
    → (nested depth env scheduler).decode_uri ≡ env.decode_uri
unfolding nested
decode-nested zero env scheduler = refl
decode-nested (suc depth) env scheduler = refl

module _ {P : Db → Type 0} {Free : String → Type 0} {Confirmed : String → String → Type 0}
    (closed : IsClosed P Free Confirmed) where
  run-closed :
      (env : Env) (others : (db : Db) → P db → P (env.others db)) (es : List Event) (db : Db)
      → All (Allowed Free Confirmed env.decode_uri) es
      → P db
      → P (run env es db)
  unfolding run
  run-closed env others [] db ok h = h
  run-closed env others (e ∷ es) db ok h =
      run-closed env others es (step env e db) ok.1 (step-closed closed env others e db ok.0 h)

  module _ (env : Env) (scheduler : Db → List Event)
      (fair : (db : Db) → All (Allowed Free Confirmed env.decode_uri) (scheduler db)) where
    others-nested : (depth : ℕ) (db : Db) → P db → P ((nested depth env scheduler).others db)
    unfolding nested
    others-nested zero db h = h
    others-nested (suc depth) db h =
        run-closed (nested depth env scheduler) (others-nested depth) (scheduler db) db
          (rw (decode-nested depth env scheduler) (fair db)) h

    -- Whatever runs at the awaits, an invariant that every statement keeps holds after every run.
    pub nested-closed :
        (depth : ℕ) (es : List Event) (db : Db)
        → All (Allowed Free Confirmed env.decode_uri) es
        → P db
        → P (run (nested depth env scheduler) es db)
    nested-closed depth es db ok h =
        run-closed (nested depth env scheduler) (others-nested depth) es db
          (rw (decode-nested depth env scheduler) ok) h

-- Where nothing has to be asked of the events.
abbrev pub Any1 : String → Type 0
Any1 _ = Unit {0}

abbrev pub Any2 : String → String → Type 0
Any2 _ _ = Unit {0}

pub All-Allowed : (decode : String → String) (es : List Event) → All (Allowed Any1 Any2 decode) es
All-Allowed decode [] = tt
All-Allowed decode (call c ∷ es) = (λ raw e. tt, All-Allowed decode es)
All-Allowed decode (intent d t r ∷ es) = (tt, All-Allowed decode es)
All-Allowed decode (confirmed u d r n ∷ es) = (tt, All-Allowed decode es)
All-Allowed decode (computers rows ∷ es) = (tt, All-Allowed decode es)
All-Allowed decode (let_go verified req ∷ es) = (λ _. tt, All-Allowed decode es)
