-- ===== src/Node/Agents/Identity.antt =====
-- node/agent.go: whom a token speaks for, and what is left of a deleted instance.
use a4s.Prelude.{
  true-false, ◌≡◌, sym, ◌∙◌, ap, some, String, ◌==◌, eq_refl, ok, ok-injective, Bool-cases,
  Option-cases, inl, inr, err_ok,
}
use a4s.Prelude.Map
use a4s.Prelude.Map.{Map, get-put}
use a4s.Prelude.Map.Keys.{delete_where, get-delete_where, get-put-some}
use a4s.Node.Agents.{Agents}
use a4s.Node.Agents.Tokens.{issue_token, resolve}

issued :
    (a b : Agents) (token raw allocation : String)
    → issue_token a (some raw) allocation ≡ ok (token, b)
    → (token ≡ raw)
      × (b.tokens ≡ Map.put (delete_where (λ held. held == allocation) a.tokens) raw allocation)
unfolding issue_token
issued a b token raw allocation h = elim (Bool-cases (allocation == "")) [
  | inl e ↦ absurd (err_ok (rw e at h))
  | inr e ↦
      let same = ok-injective (rw e at h) in
      (sym (ap (λ p. p.0) same), sym (ap (λ p. p.1.tokens) same))
]

resolve-get :
    (a : Agents) (token allocation : String)
    → resolve a token ≡ ok allocation
    → Map.get a.tokens token ≡ some allocation
unfolding resolve
resolve-get a token allocation h = elim (Bool-cases (token == "")) [
  | inl e ↦ absurd (err_ok (rw e at h))
  | inr e ↦ elim (Option-cases (Map.get a.tokens token)) [
    | inl n ↦ absurd (err_ok (rw (resolve, e, n) at h))
    | inr (x, f) ↦ f ∙ ap some (ok-injective (rw (resolve, e, f) at h))
  ]
]

-- One live token per instance: after a token is issued no other token speaks for the instance, so
-- one that leaked earlier is worthless.
pub issue_token-resolve :
    (a b : Agents) (token raw other allocation : String)
    → issue_token a (some raw) allocation ≡ ok (token, b)
    → resolve b other ≡ ok allocation
    → other ≡ token
issue_token-resolve a b token raw other allocation h r =
    let (is, tokens) = issued a b token raw allocation h in
    let found = resolve-get b other allocation r in
    elim (get-put-some (delete_where (λ held. held == allocation) a.tokens) raw other allocation
      allocation (sym (ap (λ m. Map.get m other) tokens) ∙ found)) [
        | inl (same, _) ↦ sym same ∙ sym is
        | inr (old, _) ↦ absurd (
            true-false (
              sym (eq_refl allocation)
              ∙ get-delete_where (λ held. held == allocation) a.tokens other allocation old))
      ]
