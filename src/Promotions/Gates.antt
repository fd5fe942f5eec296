-- ===== src/Promotions/Gates.antt =====
-- capmesh/risk_policy.py, and the dict of gate states that capmesh/promotions.py keeps in `gates_json`.
use client_capmesh.Prelude.{
  String, Bool, true, false, Option, none, some, List, [], ◌∷◌, ◌==◌, elem, if◌then◌else◌,
}

-- The verdict alone; the reason texts are left out, and `visibility`, which the code does not use.
unfoldable pub evaluate_risk_tier_policy : (risk_tier target_vault : String) → Bool
evaluate_risk_tier_policy risk_tier target_vault =
    if elem target_vault ("org" ∷ "private" ∷ [])
    then true
    else if elem risk_tier ("low" ∷ "none" ∷ [])
    then true
    else if risk_tier == "medium"
    then true
    else if elem risk_tier ("high" ∷ "critical" ∷ [])
    then false
    else false

-- a dict of states by the names of the gates, in the order of insertion
abbrev pub Gates : Type 0
Gates = List (String × String)

-- the keys of `default_promotion_gates`
abbrev pub gate_names : List String
gate_names =
    "sourceIntegrity" ∷ "tests" ∷ "retrievalEvals" ∷ "signature" ∷ "provenance"
    ∷ "promptInjectionScan" ∷ "riskTierPolicy" ∷ []

abbrev pub default_promotion_gates : Gates
default_promotion_gates =
    ("sourceIntegrity", "pending")
    ∷ ("tests", "pending")
    ∷ ("retrievalEvals", "pending")
    ∷ ("signature", "pending")
    ∷ ("provenance", "pending")
    ∷ ("promptInjectionScan", "pending")
    ∷ ("riskTierPolicy", "pending")
    ∷ []

-- gates.get(name)
unfoldable pub state_of : String → Gates → Option String
state_of name [] = none
state_of name (g ∷ gates) = if g.0 == name then some g.1 else state_of name gates

-- gates[name] = state
unfoldable pub put : (name state : String) → Gates → Gates
put name state [] = (name, state) ∷ []
put name state (g ∷ gates) =
    let rest = put name state gates in if g.0 == name then (g.0, state) ∷ gates else g ∷ rest

-- the names of the gates whose state is not one of those given
unfoldable pub names_outside : (states : List String) → Gates → List String
names_outside states [] = []
names_outside states (g ∷ gates) =
    let rest = names_outside states gates in if elem g.1 states then rest else g.0 ∷ rest

-- the loop that takes the states of the gate runner over
unfoldable pub merge : (names : List String) → (runner gates : Gates) → Gates
merge [] runner gates = gates
merge (name ∷ names) runner gates =
    merge names runner
      (elim (state_of name runner) [ none ↦ gates | some state ↦ put name state gates ])

-- the names that are not passed
unfoldable pub unmet : (names : List String) → Gates → List String
unmet [] gates = []
unmet (name ∷ names) gates =
    let rest = unmet names gates in
    elim (state_of name gates) [
      | none ↦ name ∷ rest
      | some state ↦ if state == "passed" then rest else name ∷ rest
    ]
