-- ===== src/Account/Closed/Routes.antt =====
-- Every route and every other event keeps what every statement keeps.
use pairfob.Prelude.{
  ℕ, ◌≡◌, refl, true, String, Bool, Option, none, some, List, [], ◌∷◌, Option-cases, inl, inr, ◌==◌,
}
use pairfob.Task.Keeps.{
  Keeps, Keeps-pure, Keeps-if, Keeps-answer, Keeps-bind, Keeps-await, keeps_rules,
}
use pairfob.Account.{Db, Env, Request, DeviceOwnerRow}
use pairfob.Account.Auth.{Identity, new_claim_proof}
use pairfob.Account.Devices.{
  is_live, field_text, claim_device, claim_for, read_claim_proof, release_device, mint_proof,
  spend_proof, Label,
}
use pairfob.Account.Release.{free_device, handle_device_release}
use pairfob.Account.Listing.{with_liveness, list_devices}
use pairfob.Account.Vault.{VaultBody, row_of, swap, store_vault, write_vault, read_vault}
use pairfob.Account.System.{
  Call, Event, call, intent, confirmed, computers, let_go, route, vault_route, device_route,
  segment, pair_intent, intent_for, step,
}
use pairfob.Account.Closed.{IsClosed, read_rules, Keeps-get_daemon}
use pairfob.Account.Closed.Handlers.{
  Keeps-random_hex, Keeps-resolve_identity, Keeps-login, Keeps-logout, Keeps-account_state,
}
use pairfob.Account.Closed.Opening.{
  Keeps-bootstrap, Keeps-read_invite, Keeps-rotate_invite, Keeps-register,
}

-- A computer that the path of a call names may be given up.
abbrev pub FreesOnly : (String → Type 0) → (decode : String → String) → Call → Type 0
FreesOnly Free decode c =
    (raw : String) → segment "/v2/account/devices/" c.path ≡ some raw → Free (decode raw)

-- What an event may give up or confirm.
abbrev pub Allowed :
    (String → Type 0) → (String → String → Type 0) → (decode : String → String) → Event → Type 0
Allowed Free Confirmed decode (call c) = FreesOnly Free decode c
Allowed Free Confirmed decode (confirmed user_id daemon_id route_id now) =
    Confirmed user_id daemon_id
Allowed Free Confirmed decode (intent daemon_id ticketed req) = Unit {0}
Allowed Free Confirmed decode (computers rows) = Unit {0}
Allowed Free Confirmed decode (let_go verified req) =
    verified ≡ true → Free (field_text "daemon_id" req)

module _ {P : Db → Type 0} {Free : String → Type 0} {Confirmed : String → String → Type 0}
    (closed : IsClosed P Free Confirmed) (env : Env)
    (others : (db : Db) → P db → P (env.others db)) where
  Keeps-spend_proof :
      (req : Request) (user_id daemon_id : String) (label : Label)
      (existing : Option DeviceOwnerRow)
      → Keeps P (spend_proof env req user_id daemon_id label existing)
  Keeps-spend_proof req user_id daemon_id label existing =
      closed.spend env req user_id daemon_id label existing others

  Keeps-with_liveness : (rows : List DeviceOwnerRow) → Keeps P (with_liveness env rows)
  unfolding with_liveness
  Keeps-with_liveness [] = search keeps_rules
  Keeps-with_liveness (row ∷ rows) =
      Keeps-bind _ _ (Keeps-await env.others _ (Keeps-get_daemon row.daemon_id) others) λ daemon.
        Keeps-bind _ _ (Keeps-with_liveness rows)
          λ rest. Keeps-pure (record { row = row; live = is_live daemon } ∷ rest)

  Keeps-list_devices : (req : Request) → Keeps P (list_devices env req)
  unfolding list_devices
  Keeps-list_devices req =
      search
        (
          keeps_rules,
          read_rules,
          Keeps-resolve_identity closed env others,
          Keeps-with_liveness,
          others,
        )
        depth 20

  Keeps-claim_for : (req : Request) (user_id : String) → Keeps P (claim_for env req user_id)
  unfolding claim_for
  Keeps-claim_for req user_id = search (keeps_rules, read_rules, Keeps-spend_proof, others) depth 20

  Keeps-claim_device : (req : Request) → Keeps P (claim_device env req)
  unfolding claim_device
  Keeps-claim_device req =
      search (keeps_rules, Keeps-resolve_identity closed env others, Keeps-claim_for) depth 20

  Keeps-read_claim_proof :
      (daemon_id : String) (req : Request) → Keeps P (read_claim_proof env daemon_id req)
  unfolding read_claim_proof
  Keeps-read_claim_proof daemon_id req =
      search (keeps_rules, read_rules, Keeps-resolve_identity closed env others, others) depth 20

  Keeps-release_device :
      (daemon_id : String) (req : Request)
      → Free daemon_id
      → Keeps P (release_device env daemon_id req)
  unfolding release_device
  Keeps-release_device daemon_id req free =
      let unbind = λ (user_id : String). closed.unbind daemon_id user_id free in
      search (keeps_rules, Keeps-resolve_identity closed env others, unbind, others) depth 20

  Keeps-swap : (user_id : String) (now : ℕ) (body : VaultBody) → Keeps P (swap user_id now body)
  Keeps-swap user_id now body =
      Keeps-if (body.version == 0) _ _ (λ _. closed.new_vault (row_of user_id now body))
        (λ _. closed.swap_vault (row_of user_id now body) body.version refl)

  Keeps-store_vault :
      (user_id : String) (now : ℕ) (body : VaultBody) → Keeps P (store_vault env user_id now body)
  unfolding store_vault
  Keeps-store_vault user_id now body = search (keeps_rules, read_rules, Keeps-swap, others) depth 20

  Keeps-write_vault : (req : Request) → Keeps P (write_vault env req)
  unfolding write_vault
  Keeps-write_vault req =
      search (keeps_rules, Keeps-resolve_identity closed env others, Keeps-store_vault) depth 20

  Keeps-read_vault : (req : Request) → Keeps P (read_vault env req)
  unfolding read_vault
  Keeps-read_vault req =
      search (keeps_rules, read_rules, Keeps-resolve_identity closed env others, others) depth 20

  Keeps-vault_route : (c : Call) → Keeps P (vault_route env c)
  Keeps-vault_route c =
      search
        (keeps_rules, Keeps-read_vault, Keeps-write_vault, Keeps-resolve_identity closed env others)
        depth 20

  Keeps-device_route : (c : Call) → FreesOnly Free env.decode_uri c → Keeps P (device_route env c)
  Keeps-device_route c free = elim (Option-cases (segment "/v2/account/devices/" c.path)) [
    | inl e ↦ rw e (Keeps-pure _)
    | inr (raw, e) ↦
        let released = Keeps-release_device (env.decode_uri raw) c.req (free raw e) in
        rw e (search (keeps_rules, released))
  ]

  Keeps-route : (c : Call) → FreesOnly Free env.decode_uri c → Keeps P (route env c)
  unfolding route
  Keeps-route c free =
      let device = Keeps-device_route c free in
      search
        (
          keeps_rules,
          Keeps-account_state closed env others,
          Keeps-bootstrap closed env others,
          Keeps-login closed env others,
          Keeps-register closed env others,
          Keeps-logout closed env others,
          Keeps-read_invite closed env others,
          Keeps-rotate_invite closed env others,
          Keeps-list_devices,
          Keeps-claim_device,
          Keeps-read_claim_proof,
          Keeps-vault_route,
          device,
        )
        depth 30

  Keeps-new_claim_proof : Keeps P (new_claim_proof env)
  unfolding new_claim_proof
  Keeps-new_claim_proof = search (keeps_rules, Keeps-random_hex closed env others)

  Keeps-mint_proof :
      (user_id daemon_id : String) (now : ℕ) → Keeps P (mint_proof env user_id daemon_id now)
  unfolding mint_proof
  Keeps-mint_proof user_id daemon_id now =
      search (keeps_rules, Keeps-new_claim_proof, closed.proof, others) depth 20

  Keeps-intent_for :
      (daemon_id : String) (ticketed : Bool) (now : ℕ) (identity : Option Identity)
      (owner : Option DeviceOwnerRow)
      → Keeps P (intent_for env daemon_id ticketed now identity owner)
  Keeps-intent_for daemon_id ticketed now identity none =
      search (keeps_rules, Keeps-mint_proof) depth 20
  Keeps-intent_for daemon_id ticketed now none (some owner) = search keeps_rules
  Keeps-intent_for daemon_id ticketed now (some who) (some owner) = search keeps_rules

  Keeps-pair_intent :
      (daemon_id : String) (ticketed : Bool) (req : Request)
      → Keeps P (pair_intent env daemon_id ticketed req)
  unfolding pair_intent
  Keeps-pair_intent daemon_id ticketed req =
      search
        (
          keeps_rules,
          read_rules,
          Keeps-resolve_identity closed env others,
          Keeps-intent_for,
          others,
        )
        depth 20

  Keeps-free_device : (daemon_id : String) → Free daemon_id → Keeps P (free_device env daemon_id)
  Keeps-free_device daemon_id free =
      let unbind = λ (user_id : String). closed.unbind daemon_id user_id free in
      search (keeps_rules, read_rules, unbind, others) depth 20

  Keeps-handle_device_release :
      (verified : Bool) (req : Request)
      → (verified ≡ true → Free (field_text "daemon_id" req))
      → Keeps P (handle_device_release env verified req)
  unfolding handle_device_release
  Keeps-handle_device_release verified req free =
      let freed =
        λ (known : verified ≡ true). Keeps-free_device (field_text "daemon_id" req) (free known) in
      search (keeps_rules, read_rules, Keeps-answer, freed, others) depth 20

  pub step-closed :
      (e : Event) (db : Db) → Allowed Free Confirmed env.decode_uri e → P db → P (step env e db)
  unfolding step
  step-closed (call c) db ok h = (Keeps-route c ok).at db h
  step-closed (intent daemon_id ticketed req) db ok h =
      (Keeps-pair_intent daemon_id ticketed req).at db h
  step-closed (confirmed user_id daemon_id route_id now) db ok h =
      (closed.ready user_id daemon_id route_id now ok).at db h
  step-closed (computers rows) db ok h = closed.computers rows db h
  step-closed (let_go verified req) db ok h = (Keeps-handle_device_release verified req ok).at db h
