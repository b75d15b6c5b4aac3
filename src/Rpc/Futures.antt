-- ===== src/Rpc/Futures.antt =====
-- The FutureMap of flockwave.concurrency, as src/flockwave/channels/rpc.py uses it: an interface of
-- which the laws are those of a dictionary of futures.
use flockwave_conn.Common.{
  ℤ, pos, negsuc, Text, text_eq, text_eq_iff, ◌≡◌, ◌↔◌, Bool, true, false, Option, none, some,
  arith, ◌==◌, if◌then◌else◌,
}

-- A `unique_id`: a text or a whole number, as JSON has them.
pub data RequestId : Type 0 where
  text_id : Text → RequestId
  number_id : ℤ → RequestId

abbrev int_eq : ℤ → ℤ → Bool
int_eq (pos m) (pos n) = m == n
int_eq (negsuc m) (negsuc n) = m == n
int_eq _ _ = false

int_eq_iff : (a b : ℤ) → (int_eq a b ≡ true) ↔ (a ≡ b)
int_eq_iff (pos m) (pos n) = ground arith
int_eq_iff (negsuc m) (negsuc n) = ground arith
int_eq_iff (pos m) (negsuc n) = ground arith
int_eq_iff (negsuc m) (pos n) = ground arith

unfoldable pub id_eq : RequestId → RequestId → Bool
id_eq (text_id s) (text_id t) = text_eq s t
id_eq (number_id m) (number_id n) = int_eq m n
id_eq (text_id _) (number_id _) = false
id_eq (number_id _) (text_id _) = false

pub id_eq_iff : (a b : RequestId) → (id_eq a b ≡ true) ↔ (a ≡ b)
unfolding id_eq
id_eq_iff (text_id s) (text_id t) = ground (arith, text_eq_iff s t)
id_eq_iff (number_id m) (number_id n) = ground (arith, int_eq_iff m n)
id_eq_iff (text_id s) (number_id n) = ground arith
id_eq_iff (number_id n) (text_id s) = ground arith

-- What a request may be answered with, other than a result: RPCError with its code and message, or the
-- exception that a response carries.
pub data Failure : Type 0 where
  rpc_error : ℤ → Text → Failure
  carried : Text → Failure

pub data Future (V : Type 0) : Type 0 where
  waiting : Future V
  resolved : V → Future V
  failed : Failure → Future V

pub record FutureMap (V : Type 0) : Type 1 where
  pub Map : Type 0
  pub empty : Map
  pub get : RequestId → Map → Option (Future V)
  pub new : RequestId → Map → Map
  -- `set_result` or `set_exception` of the future under an identifier
  pub settle : RequestId → Future V → Map → Map
  -- what leaving the context of `new` does
  pub drop : RequestId → Map → Map
  pub get-empty : (j : RequestId) → get j empty ≡ none
  pub get-new :
      (j k : RequestId) (m : Map) → get j (new k m) ≡ (if id_eq k j then some waiting else get j m)
  pub get-settle :
      (j k : RequestId) (f g : Future V) (m : Map)
      → get k m ≡ some g
      → get j (settle k f m) ≡ (if id_eq k j then some f else get j m)
  pub get-drop :
      (j k : RequestId) (m : Map) → get j (drop k m) ≡ (if id_eq k j then none else get j m)
