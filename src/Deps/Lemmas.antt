-- ===== src/Deps/Lemmas.antt =====
-- What follows from the laws of the channels.
use mathlib.Core.Option
use mlua_scheduler.Base.{
  ◌≡◌, sym, ap, ◌∙◌, none, some, List, [], ◌∷◌, Option-cases, inl, inr, uncons-eq-some,
}
use mlua_scheduler.Deps.Runtime.{Runtime}

module _ ⦃rt : Runtime⦄ {A : Type 0} where
  open rt use {Chan, contents, recv, contents-recv}

  pub recv-eq-some :
      (c : Chan A) {a : A} {d : Chan A} → recv c ≡ some (a, d) → contents c ≡ a ∷ contents d
  recv-eq-some c p = uncons-eq-some (contents c) (sym (contents-recv c) ∙ ap (Option.map _) p)

  pub recv-of_nil : (c : Chan A) → contents c ≡ [] → recv c ≡ none
  recv-of_nil c e = elim (Option-cases (recv c)) [
    | inl p ↦ p
    | inr (r, p) ↦ cc (recv-eq-some c {a = r.0} {d = r.1} p)
  ]

  pub recv-of_cons :
      (c : Chan A) {a : A} {rest : List A}
      → contents c ≡ a ∷ rest
      → (d : Chan A) × (recv c ≡ some (a, d)) × (contents d ≡ rest)
  recv-of_cons c {a} {rest} e = elim (Option-cases (recv c)) [
    | inl p ↦ cc (sym (contents-recv c) ∙ ap (Option.map _) p)
    | inr (r, p) ↦
        (r.1, cc (recv-eq-some c {a = r.0} {d = r.1} p), cc (recv-eq-some c {a = r.0} {d = r.1} p))
  ]
