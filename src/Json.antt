-- ===== src/Json.antt =====
-- The dynamic values that the program passes about: what `json.loads` gives, and `dict[str, Any]`.
-- Numbers are integers: the code never computes with a float that it is sent.
pub mod Envelope
use grafux_mcp.Base.{
  Bool, Dict, List, Option, String, [], false, none, refl, some, suc, true, truthy_text, zero, ℕ,
  ◌-◌, ◌∷◌, ◌≡◌, nat_eq, string_eq, pair_eq,
}

-- `negsuc n` is -(n + 1).
pub data ℤ : Type 0 where
  pos : ℕ → ℤ
  negsuc : ℕ → ℤ

-- -n, for a positive n
abbrev pub minus : ℕ → ℤ
minus n = negsuc (n - 1)

mutual
  pub data Json : Type 0 where
    null : Json
    bool : Bool → Json
    int : ℤ → Json
    str : String → Json
    list : Items → Json
    obj : Fields → Json

  pub data Items : Type 0 where
    nil : Items
    cons : Json → Items → Items

  pub data Fields : Type 0 where
    end : Fields
    field : String → Json → Fields → Fields

-- The entries of a JSON object, and back.
abbrev pub entries : Fields → Dict String Json
entries end = []
entries (field k v fs) = (k, v) ∷ entries fs

abbrev pub of_entries : Dict String Json → Fields
of_entries [] = end
of_entries ((k, v) ∷ d) = field k v (of_entries d)

abbrev pub items : List Json → Items
items [] = nil
items (v ∷ vs) = cons v (items vs)

abbrev pub dict : Dict String Json → Json
dict d = obj (of_entries d)

-- bool(v)
unfoldable pub truthy : Json → Bool
unfolding truthy_text
truthy null = false
truthy (bool b) = b
truthy (int (pos zero)) = false
truthy (int (pos (suc n))) = true
truthy (int (negsuc n)) = true
truthy (str s) = truthy_text s
truthy (list nil) = false
truthy (list (cons v vs)) = true
truthy (obj end) = false
truthy (obj (field k v fs)) = true

-- bool(s) for `s: str | None`
unfoldable pub given : Option String → Bool
unfolding truthy_text
given none = false
given (some s) = truthy_text s

pub entries-of_entries : (d : Dict String Json) → entries (of_entries d) ≡ d
entries-of_entries [] = refl
entries-of_entries ((k, v) ∷ d) = rw (entries-of_entries d)
