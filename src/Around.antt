-- ===== src/Around.antt =====
-- The loop by which tasker.go and pool.go put middlewares around a call.
use tasker.Base.{◌≡◌, refl, ap, ◌∙◌, sym, List, [], ◌∷◌, ◌++◌, reverse, reverse-cons}

module _ {ℓ} {S : Type ℓ} where
  -- The middlewares in the order in which the loop takes them.
  wrap : List (S → S) → S → S
  wrap [] next = next
  wrap (mw ∷ mws) next = wrap mws (mw next)

  -- `for i := len(middlewares) - 1; i >= 0; i--`.
  unfoldable pub around : List (S → S) → S → S
  unfolding wrap
  around mws call = wrap (reverse mws) call

  wrap-last :
      (xs : List (S → S)) (mw : S → S) (call : S) → wrap (xs ++ mw ∷ []) call ≡ mw (wrap xs call)
  unfolding wrap
  wrap-last [] mw call = refl
  wrap-last (x ∷ xs) mw call = wrap-last xs mw (x call)

  -- The first middleware is the outermost.
  pub around-outermost :
      (mw : S → S) (mws : List (S → S)) (call : S) → around (mw ∷ mws) call ≡ mw (around mws call)
  unfolding around
  around-outermost mw mws call =
      ap (λ ms. wrap ms call) (reverse-cons mw mws) ∙ wrap-last (reverse mws) mw call

  -- A middleware that does not call `next` refuses, wherever it stands: what comes after it, the
  -- call included, makes no difference.
  pub around-refused :
      (outer inner : List (S → S)) (refuse : S → S)
      → ((next other_next : S) → refuse next ≡ refuse other_next)
      → (call other_call : S)
      → around (outer ++ refuse ∷ inner) call ≡ around (outer ++ refuse ∷ []) other_call
  around-refused [] inner refuse same call other_call =
      around-outermost refuse inner call ∙ same _ _ ∙ sym (around-outermost refuse [] other_call)
  around-refused (mw ∷ outer) inner refuse same call other_call =
      around-outermost mw (outer ++ refuse ∷ inner) call
      ∙ ap mw (around-refused outer inner refuse same call other_call)
      ∙ sym (around-outermost mw (outer ++ refuse ∷ []) other_call)
