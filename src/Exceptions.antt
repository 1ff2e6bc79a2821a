-- ===== src/Exceptions.antt =====
-- core/exceptions.py and the Python exceptions that the program tells apart.
use grafux_mcp.Base.{
  Bool, List, String, [], any, ap, false, inl, inr, refl, subst, true, ℕ, ◌==◌, ◌∷◌, ◌≡◌, ◌⊎◌,
  nat_eq, string_eq, pair_eq,
}

pub data Kind : Type 0 where
  exception cancelled os_error timeout connection broken_pipe file_not_found : Kind
  runtime value_error attribute_error type_error key_error name_error syntax_error import_error :
      Kind
  mcp routing execution remote_call plugin_load : Kind
  http_exception http_status_error json_decode rpc_error : Kind

-- An exception: its class, and `str(exc)`.
pub record Exc : Type 0 where
  pub kind : Kind
  pub message : String

abbrev pub exc : Kind → String → Exc
exc k m = record { kind = k; message = m }

-- The classes that an exception is an instance of, nearest first (below `BaseException`).
unfoldable pub mro : Kind → List Kind
mro exception = exception ∷ []
mro cancelled = cancelled ∷ []
mro os_error = os_error ∷ exception ∷ []
mro timeout = timeout ∷ os_error ∷ exception ∷ []
mro connection = connection ∷ os_error ∷ exception ∷ []
mro broken_pipe = broken_pipe ∷ connection ∷ os_error ∷ exception ∷ []
mro file_not_found = file_not_found ∷ os_error ∷ exception ∷ []
mro runtime = runtime ∷ exception ∷ []
mro value_error = value_error ∷ exception ∷ []
mro attribute_error = attribute_error ∷ exception ∷ []
mro type_error = type_error ∷ exception ∷ []
mro key_error = key_error ∷ exception ∷ []
mro name_error = name_error ∷ exception ∷ []
mro syntax_error = syntax_error ∷ exception ∷ []
mro import_error = import_error ∷ exception ∷ []
mro mcp = mcp ∷ exception ∷ []
mro routing = routing ∷ mcp ∷ exception ∷ []
mro execution = execution ∷ mcp ∷ exception ∷ []
mro remote_call = remote_call ∷ execution ∷ mcp ∷ exception ∷ []
mro plugin_load = plugin_load ∷ mcp ∷ exception ∷ []
mro http_exception = http_exception ∷ exception ∷ []
mro http_status_error = http_status_error ∷ exception ∷ []
mro json_decode = json_decode ∷ value_error ∷ exception ∷ []
mro rpc_error = rpc_error ∷ exception ∷ []

abbrev pub tag : Kind → ℕ
tag exception = 0
tag cancelled = 1
tag os_error = 2
tag timeout = 3
tag connection = 4
tag broken_pipe = 5
tag file_not_found = 6
tag runtime = 7
tag value_error = 8
tag attribute_error = 9
tag type_error = 10
tag key_error = 11
tag name_error = 12
tag syntax_error = 13
tag import_error = 14
tag mcp = 15
tag routing = 16
tag execution = 17
tag remote_call = 18
tag plugin_load = 19
tag http_exception = 20
tag http_status_error = 21
tag json_decode = 22
tag rpc_error = 23

-- isinstance(exc, cls)
unfoldable pub is_instance : Exc → Kind → Bool
unfolding mro any
is_instance e cls = any (λ k. tag k == tag cls) (mro e.kind)

-- isinstance(exc, (cls, ...))
unfoldable pub is_instance_of_any : Exc → List Kind → Bool
unfolding is_instance
is_instance_of_any e classes = any (is_instance e) classes

-- What a call gives back: a value, or the exception that it raises.
pub data Result {ℓ} (A : Type ℓ) : Type ℓ where
  thrown : Exc → Result A
  ok : A → Result A

infixl 5 ◌>>=◌
-- A block of statements stops at the first exception.
abbrev pub ◌>>=◌ {ℓ κ} : {A : Type ℓ} {B : Type κ} (r : Result A) (next : A → Result B) → Result B
thrown e >>= next = thrown e
ok a >>= next = next a

is_instance_tests :
    (is_instance (exc broken_pipe "gone") connection ≡ true)
    × (is_instance (exc cancelled "") exception ≡ false)
unfolding is_instance
is_instance_tests = (refl, refl)

pub Result-cases {ℓ} :
    {A : Type ℓ} (r : Result A) → ((a : A) × (r ≡ ok a)) ⊎ ((e : Exc) × (r ≡ thrown e))
Result-cases (ok a) = inl (a, refl)
Result-cases (thrown e) = inr (e, refl)

-- A block that returns has passed its first statement, and goes on from that statement's value.
pub >>=-ok_inv {ℓ κ} :
    {A : Type ℓ} {B : Type κ} (r : Result A) (next : A → Result B) {v : B}
    → (r >>= next) ≡ ok v
    → (x : A) × (next x ≡ ok v) × (r ≡ ok x)
>>=-ok_inv (thrown e) next h = cc
>>=-ok_inv (ok x) next h = (x, h, refl)

-- A property of a value that is returned is one of the value that is asked about.
pub ok_path {ℓ κ} : {A : Type ℓ} (P : A → Type κ) {a b : A} → ok a ≡ ok b → P a → P b
ok_path {A} P {a} e h = subst P (ap value e) h
  where
    value : Result A → A
    value (ok x) = x
    value (thrown x) = a

-- A property of an exception is one of the exception that it is said to be.
pub thrown_path {ℓ κ} :
    {A : Type ℓ} (P : Exc → Type κ) {a b : Exc}
    → ◌≡◌ {A = Result A} (thrown a) (thrown b)
    → P a
    → P b
thrown_path {A} P {a} q h = subst P (ap raised q) h
  where
    raised : Result A → Exc
    raised (ok x) = a
    raised (thrown x) = x
