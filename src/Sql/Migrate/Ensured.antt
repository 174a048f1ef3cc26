-- ===== src/Sql/Migrate/Ensured.antt =====
-- Names that are made where they are missing.
use tasker.Base.{
  ℕ, suc, true, false, List, [], ◌∷◌, ◌++◌, String, str_eq, eq_refl, if-rule, count, ◌≡◌, refl, ◌∙◌,
  ap, arith,
}
use tasker.Sql.Migrate.{has, ensure}

abbrev pub ensure_all : List String → List String → List String
ensure_all [] l = l
ensure_all (name ∷ names) l = ensure_all names (ensure name l)

-- Some of the names have been made, in their order.
pub data Ensured : List String → List String → List String → Type 0 where
  stopped : {names l : List String} → Ensured names l l
  made :
      {name : String} {names l l' : List String}
      → Ensured names (ensure name l) l'
      → Ensured (name ∷ names) l l'

has-append : (name : String) (l m : List String) → has name l ≡ true → has name (l ++ m) ≡ true
has-append name [] m h = cc
has-append name (x ∷ l) m h = ground (arith, has-append name l m)

has-last : (name : String) (l : List String) → has name (l ++ name ∷ []) ≡ true
has-last name [] = rw (eq_refl name) refl
has-last name (x ∷ l) =
    if-rule (λ b. b ≡ true) (str_eq name x) true _ (λ _. refl) (λ _. has-last name l)

pub has-ensure_self : (name : String) (l : List String) → has name (ensure name l) ≡ true
has-ensure_self name l =
    if-rule (λ m. has name m ≡ true) (has name l) _ _ (λ h. h) (λ _. has-last name l)

pub has-ensure :
    (name other : String) (l : List String) → has name l ≡ true → has name (ensure other l) ≡ true
has-ensure name other l h =
    if-rule (λ m. has name m ≡ true) (has other l) _ _ (λ _. h) (λ _. has-append name l _ h)

pub has-Ensured :
    (name : String) {names l l' : List String}
    → Ensured names l l'
    → has name l ≡ true
    → has name l' ≡ true
has-Ensured name Ensured.stopped h = h
has-Ensured name (Ensured.made r) h = has-Ensured name r (has-ensure name _ _ h)

pub ensure-has : (name : String) (l : List String) → has name l ≡ true → ensure name l ≡ l
ensure-has name l h = rw h refl

-- Making all of them after some of them is making all of them.
pub resumed :
    {names l l' : List String} → Ensured names l l' → ensure_all names l' ≡ ensure_all names l
resumed Ensured.stopped = refl
resumed (Ensured.made {name} {names} {l} {l'} r) =
    ap (ensure_all names) (ensure-has name l' (has-Ensured name r (has-ensure_self name l)))
    ∙ resumed r

pub count-has : (name : String) (l : List String) → (count (str_eq name) l ≡ 0) → has name l ≡ false
count-has name [] h = refl
count-has name (x ∷ l) h = ground (arith, count-has name l)

pub has-count :
    (name : String) (l : List String) (n : ℕ) → count (str_eq name) l ≡ suc n → has name l ≡ true
has-count name [] n h = absurd (omega arith)
has-count name (x ∷ l) n h = ground (arith, has-count name l n)
