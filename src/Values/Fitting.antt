-- ===== src/Values/Fitting.antt =====
-- What a GValue of a type may hold, and that the numeric cases of pyg_value_from_pyobject of
-- gobject/pygtype.c keep to it.
use debian_pygobject.Base.{ℕ, ◌^◌, ◌<◌, ◌≡◌, true, Option, none, some}
use debian_pygobject.CInt.{ℤ, pos, negsuc, InInt, InLong}
use debian_pygobject.Values.{
  Glib, Fundamental, interface_type, char_type, uchar_type, boolean_type, int_type, uint_type,
  long_type, ulong_type, int64_type, uint64_type, enum_type, flags_type, float_type, double_type,
  string_type, pointer_type, boxed_type, param_type, object_type, none_type, other_type, Content,
  number, real, text, pointer, python, gstring, gvalue, array, Contents, no_contents, item, Answer,
  stored,
}

-- The numbers of a type.
abbrev pub Below : ℕ → ℤ → Type 0
Below top (pos n) = n < top
Below top (negsuc n) = ⊥

abbrev pub InChar : ℤ → Type 0
InChar (pos n) = n < 128
InChar (negsuc n) = n < 128

abbrev pub NumberFits : Fundamental → ℤ → Type 0
NumberFits char_type v = InChar v
NumberFits uchar_type v = Below 256 v
NumberFits boolean_type v = Below 2 v
NumberFits int_type v = InInt v
NumberFits uint_type v = Below (2 ^ 32) v
NumberFits long_type v = InLong v
NumberFits ulong_type v = Below (2 ^ 64) v
NumberFits int64_type v = InLong v
NumberFits uint64_type v = Below (2 ^ 64) v
NumberFits enum_type v = InInt v
NumberFits flags_type v = InInt v
NumberFits _ v = ⊥

abbrev pub PointerFits : Glib → Fundamental → ℕ → Option ℕ → Type 0
PointerFits g interface_type t none = Unit {0}
PointerFits g interface_type t (some a) = g.instance_is_a a t ≡ true
PointerFits g object_type t none = Unit {0}
PointerFits g object_type t (some a) = g.instance_is_a a t ≡ true
PointerFits g pointer_type t p = Unit {0}
PointerFits g boxed_type t p = Unit {0}
PointerFits g param_type t p = Unit {0}
PointerFits g none_type t p = Unit {0}
PointerFits g other_type t p = Unit {0}
PointerFits g _ t p = ⊥

abbrev pub IsReal : Fundamental → Type 0
IsReal float_type = Unit {0}
IsReal double_type = Unit {0}
IsReal _ = ⊥

-- What a GValue of a type may hold; of the types that only registered functions
-- convert, a pointer. `f` is its fundamental type. A GValue in it and the items of an array in it may
-- hold what their own types allow.
unfoldable mutual
  pub FitsAs : Glib → Fundamental → ℕ → Content → Type 0
  FitsAs g f t (number v) = NumberFits f v
  FitsAs g f t (real b) = IsReal f
  FitsAs g f t (text s) = f ≡ string_type
  FitsAs g f t (pointer p) = PointerFits g f t p
  FitsAs g f t (python o) = (f ≡ boxed_type) × (g.is_a t g.py_object_gtype ≡ true)
  FitsAs g f t (gstring s) = (f ≡ boxed_type) × (g.is_a t g.gstring_gtype ≡ true)
  FitsAs g f t (gvalue u c) =
      (f ≡ boxed_type) × (g.is_a t g.value_gtype ≡ true) × FitsAs g (g.fundamental u) u c
  FitsAs g f t (array cs) = ((f ≡ boxed_type) × (g.is_a t g.value_array_gtype ≡ true)) × AllFit g cs

  pub AllFit : Glib → Contents → Type 0
  AllFit g no_contents = Unit {0}
  AllFit g (item u c cs) = FitsAs g (g.fundamental u) u c × AllFit g cs

-- A property of what is stored, if something is.
abbrev pub Stored : (Content → Type 0) → Answer → Type 0
Stored P (stored c) = P c
Stored P _ = Unit {0}

abbrev pub Every {ℓ} : {A : Type ℓ} → (A → Type 0) → Option A → Type 0
Every P none = Unit {0}
Every P (some a) = P a
