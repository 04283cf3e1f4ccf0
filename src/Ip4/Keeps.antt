-- ===== src/Ip4/Keeps.antt =====
-- What stays of the flows of a worker of flow_table/core.
use vpp_plugins.Ip4.All.{answered_flow}
use vpp_plugins.Protocol.Path.{SamePath}
use vpp_plugins.Protocol.Touched.{Touched}
use vpp_plugins.Flow.Types.{Flow}
use vpp_plugins.Flow.Defs.{WrkCtx, flow_table_update_flow}
use vpp_plugins.Base.{
  ℕ, ◌∙◌, ◌≡◌, some, Bool-cases, refl, none, ◌==◌, inl, ==_iff, inr, some_injective, ap, sym, false,
}

-- A relation between a flow and what it is later, which every step on a flow keeps.
pub record IsKept (R : Flow → Flow → Type 0) : Type 0 where
  pub same : (f : Flow) → R f f
  pub trans : (f g h : Flow) → R f g → R g h → R f h
  pub path : (f g : Flow) → SamePath f g → R f g
  pub answered : (i : ℕ) (f : Flow) → R f (answered_flow i f)

-- Every flow of the one context is a flow of the other, in the same element, and related to it.
abbrev pub Persists : {T W : Type 0} → (Flow → Flow → Type 0) → WrkCtx T W → WrkCtx T W → Type 0
Persists R before after =
    (i : ℕ) (f : Flow) → before.flows i ≡ some f → (g : Flow) × (after.flows i ≡ some g) × R f g

-- Every flow of the one context is a flow of the other, in the same element and with the same key.
abbrev pub Keeps : {T W : Type 0} → WrkCtx T W → WrkCtx T W → Type 0
Keeps = Persists (λ f g. g.key ≡ f.key)

pub same_key-IsKept : IsKept (λ f g. g.key ≡ f.key)
unfolding flow_table_update_flow
same_key-IsKept = record {
  same = λ f. refl;
  trans = λ f g h p q. q ∙ p;
  path = λ f g p. p.key;
  answered = λ i f. refl;
}

module _ {T W : Type 0} {R : Flow → Flow → Type 0} (kept : IsKept R) where
  pub Persists-refl : (wrk : WrkCtx T W) → Persists R wrk wrk
  Persists-refl wrk i f found = (f, found, kept.same f)

  pub Persists-trans : (a b c : WrkCtx T W) → Persists R a b → Persists R b c → Persists R a c
  Persists-trans a b c p q i f found =
      let (g, at, r) = p i f found in let (h, at', r') = q i g at in (h, at', kept.trans f g h r r')

  pub same-Persists : (wrk wrk' : WrkCtx T W) → wrk'.flows ≡ wrk.flows → Persists R wrk wrk'
  same-Persists wrk wrk' e i f found = (f, rw e found, kept.same f)

  -- A write over a flow.
  pub rewrite-Persists :
      (wrk wrk' : WrkCtx T W) (i : ℕ) (f f' : Flow)
      → wrk'.flows i ≡ some f'
      → ((j : ℕ) → (i == j) ≡ false → wrk'.flows j ≡ wrk.flows j)
      → wrk.flows i ≡ some f
      → R f f'
      → Persists R wrk wrk'
  rewrite-Persists wrk wrk' i f f' written others found r j g at = elim (Bool-cases (i == j)) [
    | inl same ↦
        (let ij : i ≡ j = (==_iff i j).0 same in
          let fg : f ≡ g = some_injective (sym found ∙ ap wrk.flows ij ∙ at) in
          (f', rw (← ij) written, rw (← fg) r))
    | inr other ↦ (g, others j other ∙ at, kept.same g)
  ]

  -- A write into a free element.
  pub put-Persists :
      (wrk wrk' : WrkCtx T W) (i : ℕ)
      → ((j : ℕ) → (i == j) ≡ false → wrk'.flows j ≡ wrk.flows j)
      → wrk.flows i ≡ none
      → Persists R wrk wrk'
  put-Persists wrk wrk' i others free j g at = elim (Bool-cases (i == j)) [
    | inl same ↦ absurd (cc (free, at, (==_iff i j).0 same))
    | inr other ↦ (g, others j other ∙ at, kept.same g)
  ]

  -- A handler touches one flow.
  pub Touched-Persists :
      (wrk wrk' : WrkCtx T W) (i : ℕ) (f : Flow)
      → wrk.flows i ≡ some f
      → Touched wrk i f wrk'
      → Persists R wrk wrk'
  Touched-Persists wrk wrk' i f found t =
      rewrite-Persists wrk wrk' i f t.after t.written t.others found (kept.path f t.after t.path)
