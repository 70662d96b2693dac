-- ===== src/Engine/Choose.antt =====
-- `advanceRun` of src/lib/engine.ts: the choice of a provider, and `requestApproval`.
use obolos.Prelude.{◌+◌, ◌*◌, max, String, Bool, true, false, ◌&&◌, not, List, [], ◌∷◌}
use obolos.Prelude.{Option, none, some, leb, ◌==◌, nat_eq, string_eq, if◌then◌else◌}
use obolos.Prelude.{length, keep, includes, lit}
use obolos.Contracts.{live, Run, Mandate, Provider}
use obolos.Contracts.{ApprovalMessage, SignerMode, usb, speculos, mode_eq, network_eq}
use obolos.Contracts.{asset_eq, planner, blocked}
use obolos.Contracts.{awaiting_approval}
use obolos.Policy.{assess_quote, is_allowed}
use obolos.Engine.{Env, log}

abbrev pub insert_by_price : Provider → List Provider → List Provider
insert_by_price p [] = p ∷ []
insert_by_price p (q ∷ qs) =
    if leb p.unit_price_atomic q.unit_price_atomic then p ∷ q ∷ qs else q ∷ insert_by_price p qs

-- `sort((a,b)=>a.unitPriceAtomic-b.unitPriceAtomic)`, which is stable.
abbrev pub sort_by_price : List Provider → List Provider
sort_by_price [] = []
sort_by_price (p ∷ ps) = insert_by_price p (sort_by_price ps)

unfoldable pub eligible_providers : Mandate → List Provider → List Provider
eligible_providers m providers =
    sort_by_price (keep (λ p. includes m.allowed_providers p.id) providers)

abbrev pub is_approved_for : Env → Run → Provider → Bool
is_approved_for env run p =
    is_allowed (assess_quote env.now run.mandate p (length run.repos) run.data_spent_atomic)

-- `run.selectedProvider!==approved.id`
abbrev pub is_other : Option String → String → Bool
is_other none id = true
is_other (some s) id = not (s == id)

-- The mandate that `requestApproval` proposes for a provider.
abbrev pub proposed_mandate : Env → Run → Provider → Mandate
proposed_mandate env run p = record (run.mandate) {
  version = run.mandate.version + 1;
  max_data_unit_price_atomic = max run.mandate.max_data_unit_price_atomic p.unit_price_atomic;
  data_budget_atomic =
      max run.mandate.data_budget_atomic
        (run.data_spent_atomic + p.unit_price_atomic * length run.repos);
  expires_at = some (env.now + 3600000);
}

abbrev pub configured_signer : Option String → SignerMode
configured_signer none = usb
configured_signer (some s) = if s == "speculos" then speculos else usb

abbrev pub is_speculos : SignerMode → Bool
is_speculos speculos = true
is_speculos usb = false

unfoldable pub request_approval : Env → Run → Provider → String → Run
request_approval env run p why =
    let proposed = proposed_mandate env run p in
    let expiry = env.now + 300000 in
    let signer = configured_signer env.ledger_signer_mode in
    let message : ApprovalMessage = record {
      run = run.id;
      mode = run.mode;
      speculos_line = run.mode == live && is_speculos signer;
      nonce = env.nonce;
      expires_at = expiry;
      previous_version = run.mandate.version;
      new_mandate = proposed;
    } in
    let pending = record run {
      approval = some (record {
        signer_mode = if run.mode == live then some signer else none;
        nonce = env.nonce;
        message = message;
        expires_at = some expiry;
        proposed_mandate = proposed;
        reason = why;
      });
      status = awaiting_approval;
    } in
    log env pending planner blocked "Human approval required" (lit why ∷ [])
