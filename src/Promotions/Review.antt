-- ===== src/Promotions/Review.antt =====
-- capmesh/promotions.py: the checks of `approve_request`. The gate runner (`review_capability` of
-- capmesh/lifecycle.py, which reads source files and runs checks on them), the phrases that block
-- (`should_block` on `scan_prompt_injection`), and `slugify`, which works on Unicode classes, are
-- parameters; the runner gives the states of the gates, if it does not raise, and the policy
-- decisions that it records. The refusals, which write nothing between them, are one function that gives the first
-- error. Messages are left out, and the columns of the search index that follow a uri.
use client_capmesh.Prelude.{
  String, Bool, true, false, not, ◌&&◌, Option, none, some, List, [], ◌∷◌, ◌==◌, ◌+++◌, or_else,
  or_default, is_some_eq, elem, any, find, value_error, permission_error, if◌then◌else◌, Error,
}
use client_capmesh.Model.{
  Env, Capability, Store, Namespace, PromotionRequest, World, PolicyDecision,
}
use client_capmesh.Promotions.Gates.{
  Gates, gate_names, evaluate_risk_tier_policy, put, names_outside, merge, unmet,
}

-- the dict of a decision
pub record Payload : Type 0 where
  pub request_id : String
  pub decision : Option String
  pub override_pending_gates : Bool
  pub note : Option String

-- what is known of the gates when a request is approved
pub record Review : Type 0 where
  pub gates : Gates
  pub pending : List String
  pub failed : List String
  -- whether the gate runner gave the states, which are then stored
  pub stored : Bool

abbrev pub adhoc_owned : List String
adhoc_owned = "riskTierPolicy" ∷ "promptInjectionScan" ∷ []

-- the gates of `failed` that are not checked ad hoc
unfoldable pub without_adhoc : List String → List String
without_adhoc [] = []
without_adhoc (name ∷ names) =
    let rest = without_adhoc names in if elem name adhoc_owned then rest else name ∷ rest

abbrev pub is_empty {ℓ} : {A : Type ℓ} → List A → Bool
is_empty [] = true
is_empty (x ∷ xs) = false

-- uri_prefix.rstrip("/")
unfoldable pub rstrip_slash : String → String
rstrip_slash String.[] = ""
rstrip_slash (String.◌∷◌ c s) =
    let rest = rstrip_slash s in if String.◌∷◌ c rest == "/" then "" else String.◌∷◌ c rest

abbrev pub at_uri : String → Capability → Bool
at_uri uri c = c.uri == uri

-- the namespace that a request is for
unfoldable pub target_namespace : PromotionRequest → World → Option Namespace
target_namespace row w =
    find (λ (n : Namespace). is_some_eq row.target_namespace_id n.id) w.namespaces

abbrev pub source_capability : PromotionRequest → World → Option Capability
source_capability row w = find (at_uri row.capability_uri) w.capabilities

abbrev pub store_of : Namespace → World → Option Store
store_of n w = find (λ (s : Store). s.id == n.store_id) w.stores

-- `risk_tier_gate_ok`, none where a row is missing
unfoldable pub risk_tier_gate : PromotionRequest → World → Option Bool
risk_tier_gate row w = elim (target_namespace row w) [
  | none ↦ none
  | some n ↦ elim (source_capability row w) [
    | none ↦ none
    | some c ↦ elim (store_of n w) [
      | none ↦ none
      | some s ↦
          some
            (evaluate_risk_tier_policy (or_else c.risk_tier "unknown") (or_else s.kind "unknown"))
    ]
  ]
]

-- the columns that production asks for
abbrev pub is_secure : Option Capability → Bool
is_secure none = false
is_secure (some c) =
    c.signature_status == "verified"
    && (c.provenance_status == "verified" && c.risk_review_status == "approved")

module _ (env : Env) (slugify : String → String)
    (gate_runner : World → PromotionRequest → Option Gates × List PolicyDecision)
    (blocks : Capability → Bool) where
  -- The gates as stored, or as the runner gives them; the runner gives none where it raises.
  -- `gates_json` holds a dict, as the code writes it: the branch for a list is left out.
  unfoldable pub review : PromotionRequest → World → Review
  unfolding without_adhoc
  review row w = elim (gate_runner w row).0 [
    | none ↦ record {
      gates = elim row.gates [ none ↦ [] | some gates ↦ gates ];
      pending = elim row.gates [
        | none ↦ "__malformed_gates_json__" ∷ []
        | some gates ↦ names_outside ("passed" ∷ []) gates
      ];
      failed = [];
      stored = false;
    }
    | some runner ↦
        let gates = merge gate_names runner (elim row.gates [ none ↦ [] | some gates ↦ gates ]) in
        record {
          gates = gates;
          pending = names_outside ("passed" ∷ "skipped" ∷ "failed" ∷ []) gates;
          failed = without_adhoc (names_outside ("passed" ∷ "skipped" ∷ []) gates);
          stored = true;
        }
  ]

  -- `evaluate_prompt_injection_scan` of capmesh/prompt_injection.py
  unfoldable pub evaluate_prompt_injection_scan : PromotionRequest → World → String
  evaluate_prompt_injection_scan row w = elim (target_namespace row w) [
    | none ↦ "skipped"
    | some n ↦ elim (store_of n w) [
      | none ↦ "skipped"
      | some s ↦
          if not (elem s.kind ("all_users" ∷ "org" ∷ []))
          then "skipped"
          else elim (source_capability row w) [
            | none ↦ "skipped"
            | some c ↦ if blocks c then "failed" else "passed"
          ]
    ]
  ]

  -- the gates with the states of the two that are checked ad hoc
  unfoldable pub final_gates : Review → PromotionRequest → World → Gates
  final_gates r row w =
      put "promptInjectionScan" (evaluate_prompt_injection_scan row w)
        (elim (risk_tier_gate row w) [
          | none ↦ r.gates
          | some passed ↦ put "riskTierPolicy" (if passed then "passed" else "failed") r.gates
        ])

  -- the address of a capability in a namespace
  abbrev pub address : Namespace → Capability → String
  address n c =
      rstrip_slash n.uri_prefix
      +++ ("/"
          +++ (c.capability_type
              +++ ("/"
                  +++ (slugify (or_default c.plugin "global")
                      +++ ("." +++ (slugify c.name +++ ("@" +++ c.version)))))))

  unfoldable pub promoted_uri : PromotionRequest → World → String
  promoted_uri row w = elim (target_namespace row w) [
    | none ↦ row.capability_uri
    | some n ↦ elim (source_capability row w) [ none ↦ row.capability_uri | some c ↦ address n c ]
  ]

  -- whether the capability and the namespace of the request are there
  unfoldable pub is_complete : PromotionRequest → World → Bool
  is_complete row w = elim (target_namespace row w) [
    | none ↦ false
    | some n ↦ elim (source_capability row w) [ none ↦ false | some c ↦ true ]
  ]

  -- another capability holds the new uri
  unfoldable pub is_taken : PromotionRequest → World → Bool
  is_taken row w =
      not (promoted_uri row w == row.capability_uri)
      && any (at_uri (promoted_uri row w)) w.capabilities

  -- the first of the checks that refuses an approval
  unfoldable pub refusal : Payload → Review → PromotionRequest → World → Option Error
  refusal payload r row w =
      if not (is_empty r.pending) && not payload.override_pending_gates
      then some permission_error
      else if not (is_empty r.pending) && env.production
      then some permission_error
      else if env.production && not (is_empty (unmet gate_names r.gates))
      then some permission_error
      else if env.production && not (is_secure (source_capability row w))
      then some permission_error
      else if elim (risk_tier_gate row w) [ none ↦ false | some passed ↦ not passed ]
          && not payload.override_pending_gates
      then some permission_error
      else if evaluate_prompt_injection_scan row w == "failed" && not payload.override_pending_gates
      then some permission_error
      else if not (is_empty r.failed) && not payload.override_pending_gates
      then some permission_error
      else if not (is_complete row w) && env.production
      then some value_error
      else if is_taken row w
      then some value_error
      else none
