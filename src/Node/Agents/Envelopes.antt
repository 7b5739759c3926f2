-- ===== src/Node/Agents/Envelopes.antt =====
-- node/agent.go: what a tool grant can change.
use a4s.Prelude.{
  ◌≡◌, refl, sym, ◌∙◌, ap, subst, true, ◌||◌, some, List, [], ◌∷◌, String, ◌==◌, eq_iff, arith, ℤ,
  ok, ◌>>=◌, ok-injective, Bool-cases, inl, inr, err_ok,
}
use a4s.Prelude.Map
use a4s.Prelude.Map.{Map, get-put, get-delete}
use a4s.Types.Goal.{ToolGrant, equal_tool}
use a4s.Types.Action.{Action}
use a4s.Types.Evidence.{Evidence}
use a4s.Node.Agents.{
  Agents, grant, same_envelope, sort_grants, insert_grant, equal_grants, may_grant,
}
use a4s.Node.Agents.Meters.{allows, tools_of, grants}

grants-insert_grant :
    (xs : List ToolGrant) (g : ToolGrant) (tool scope : String)
    → grants tool scope (insert_grant g xs) ≡ grants tool scope (g ∷ xs)
unfolding insert_grant
grants-insert_grant [] g tool scope = refl
grants-insert_grant (x ∷ xs) g tool scope = ground (arith, grants-insert_grant xs g tool scope)

grants-sort_grants :
    (gs sorted : List ToolGrant) (tool scope : String)
    → grants tool scope (sort_grants sorted gs) ≡ grants tool scope gs || grants tool scope sorted
unfolding sort_grants
grants-sort_grants [] sorted tool scope = refl
grants-sort_grants (g ∷ gs) sorted tool scope =
    grants-sort_grants gs (insert_grant g sorted) tool scope
    ∙ ground (arith, grants-insert_grant sorted g tool scope)

equal_grants-grants :
    (xs ys : List ToolGrant) (tool scope : String)
    → equal_grants xs ys ≡ true
    → grants tool scope xs ≡ grants tool scope ys
unfolding equal_grants equal_tool
equal_grants-grants [] [] tool scope h = refl
equal_grants-grants (x ∷ xs) [] tool scope h = cc
equal_grants-grants [] (y ∷ ys) tool scope h = cc
equal_grants-grants (x ∷ xs) (y ∷ ys) tool scope h =
    ground
      (arith, equal_grants-grants xs ys tool scope, eq_iff x.name y.name, eq_iff x.scope y.scope)

same_envelope-grants :
    (xs ys : List ToolGrant) (tool scope : String)
    → same_envelope xs ys ≡ true
    → grants tool scope xs ≡ grants tool scope ys
unfolding same_envelope
same_envelope-grants xs ys tool scope h =
    let same = equal_grants-grants (sort_grants [] xs) (sort_grants [] ys) tool scope h in
    ground (arith, same, grants-sort_grants xs [] tool scope, grants-sort_grants ys [] tool scope)

rewritten :
    (a : Agents) (target allocation tool scope : String) (held tools : List ToolGrant)
    → Map.get a.envelopes target ≡ some held
    → same_envelope held tools ≡ true
    → allows (record a { envelopes = Map.put a.envelopes target tools }) allocation tool scope
      ≡ allows a allocation tool scope
unfolding allows tools_of
rewritten a target allocation tool scope held tools is same =
    elim (Bool-cases (target == allocation)) [
      | inl e ↦
          rw
            (
              get-put a.envelopes target allocation tools,
              tools_of,
              e,
              sym ((eq_iff target allocation).0 e),
              is,
            )
            (sym (same_envelope-grants held tools tool scope same))
      | inr e ↦ rw (get-put a.envelopes target allocation tools, e, tools_of) refl
    ]

-- An envelope is final: a grant to an instance that already holds one changes what no instance may
-- call, whatever tools it names and in whatever order.
pub grant-allows :
    (a b : Agents) (sprint : ℤ → String) (action : Action) (e : Evidence) (held : List ToolGrant)
    (allocation tool scope : String)
    → grant a sprint action ≡ ok (b, e)
    → Map.get a.envelopes action.target ≡ some held
    → allows b allocation tool scope ≡ allows a allocation tool scope
unfolding grant ◌>>=◌
grant-allows a b sprint action e held allocation tool scope h is =
    elim (Bool-cases (action.target == "")) [
      | inl blank ↦ absurd (err_ok (rw (grant, blank) at h))
      | inr named ↦ elim (Bool-cases (may_grant (Map.get a.envelopes action.target) action.tools)) [
        | inl fine ↦
            let same = ok-injective (rw (grant, named, fine) at h) in
            subst (λ x. allows x allocation tool scope ≡ allows a allocation tool scope)
              (ap (λ p. p.0) same)
              (rewritten a action.target allocation tool scope held action.tools is (rw is at fine))
        | inr wider ↦ absurd (err_ok (rw (grant, named, wider) at h))
      ]
    ]
