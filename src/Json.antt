-- ===== src/Json.antt =====
-- JSON values. Event and update texts are held as the trees that encoding/json writes and reads.
-- `int n` is a number written as an integer; `frac n k` is one written otherwise, of the value
-- `n / 2 ^ k`, a form that every finite float64 has.
-- Field names are matched exactly, and the last field of a name counts.
use native.Mathlib.Decide.{ℕ_discrete}
use sr_server.Prelude.{
  ℕ, ◌≡◌, refl, ◌↔◌, arith, Bool, true, false, Option, none, some, List, [], ◌∷◌, if◌then◌else◌,
  Text, text_eq, ℤ, pos, Result, ok, err,
}

mutual
  pub data Json : Type 0 where
    null : Json
    bool : Bool → Json
    int : ℤ → Json
    frac : ℤ → ℕ → Json
    str : Text → Json
    arr : Items → Json
    obj : Fields → Json

  pub data Items : Type 0 where
    nil : Items
    cons : Json → Items → Items

  pub data Fields : Type 0 where
    end : Fields
    field : Text → Json → Fields → Fields

Json-discrete : Discrete Json
Json-discrete = hlevel ℕ_discrete

-- Whether two texts are the same.
unfoldable pub json_eq : Json → Json → Bool
unfolding Json-discrete
json_eq a b = elim (Json-discrete a b) [ yes _ ↦ true | no _ ↦ false ]

pub json_eq_iff : (a b : Json) → (json_eq a b ≡ true) ↔ (a ≡ b)
unfolding json_eq
json_eq_iff a b = ground arith

-- The field of a name, the last one if there are several.
abbrev pub get_field : Text → Fields → Option Json
get_field k end = none
get_field k (field j v fs) = elim (get_field k fs) [
  | some w ↦ some w
  | none ↦ if text_eq j k then some v else none
]

-- What json.Unmarshal puts in a struct's field that starts at its zero value: a missing field and
-- `null` leave that value, and a value of another kind is an error.
pub data Mismatch : Type 0 where
  mismatch : Mismatch

abbrev pub read_int : Option Json → Result Mismatch ℤ
read_int none = ok (pos 0)
read_int (some null) = ok (pos 0)
read_int (some (int n)) = ok n
read_int (some _) = err mismatch

abbrev pub read_text : Option Json → Result Mismatch Text
read_text none = ok []
read_text (some null) = ok []
read_text (some (str s)) = ok s
read_text (some _) = err mismatch

abbrev pub read_bool : Option Json → Result Mismatch Bool
read_bool none = ok Bool.false
read_bool (some null) = ok Bool.false
read_bool (some (bool b)) = ok b
read_bool (some _) = err mismatch

infixl 5 ◌>>=◌
abbrev pub ◌>>=◌ : {A B : Type 0} → Result Mismatch A → (A → Result Mismatch B) → Result Mismatch B
ok a >>= f = f a
err e >>= f = err e

-- []int
abbrev pub int_items : List ℤ → Items
int_items [] = nil
int_items (n ∷ ns) = cons (int n) (int_items ns)

unfoldable pub read_items : Items → Result Mismatch (List ℤ)
read_items nil = ok []
read_items (cons v vs) = do n ← read_int (some v); ns ← read_items vs; ok (n ∷ ns)

abbrev pub read_ints : Option Json → Result Mismatch (List ℤ)
read_ints none = ok []
read_ints (some null) = ok []
read_ints (some (arr vs)) = read_items vs
read_ints (some _) = err mismatch

-- [][]int
abbrev pub round_items : List (List ℤ) → Items
round_items [] = nil
round_items (ns ∷ nss) = cons (arr (int_items ns)) (round_items nss)

unfoldable pub read_round_items : Items → Result Mismatch (List (List ℤ))
unfolding read_items
read_round_items nil = ok []
read_round_items (cons v vs) = do ns ← read_ints (some v); nss ← read_round_items vs; ok (ns ∷ nss)

abbrev pub read_rounds : Option Json → Result Mismatch (List (List ℤ))
read_rounds none = ok []
read_rounds (some null) = ok []
read_rounds (some (arr vs)) = read_round_items vs
read_rounds (some _) = err mismatch

pub read_items-int_items : (ns : List ℤ) → read_items (int_items ns) ≡ ok ns
unfolding read_items
read_items-int_items [] = refl
read_items-int_items (n ∷ ns) = rw (read_items-int_items ns)

pub read_round_items-round_items :
    (nss : List (List ℤ)) → read_round_items (round_items nss) ≡ ok nss
unfolding read_round_items
read_round_items-round_items [] = refl
read_round_items-round_items (ns ∷ nss) =
    rw (read_items-int_items ns, read_round_items-round_items nss)
