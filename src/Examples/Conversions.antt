-- ===== src/Examples/Conversions.antt =====
-- The theorems on conversions at a GLib with an int type, 1, or an unsigned one, and a boxed one, 3.
use debian_pygobject.Base.{
  ℕ, ◌^◌, ◌≡◌, refl, ◌<◌, Bool, true, false, Option, none, some, List, [], ◌∷◌, ◌==◌, if◌then◌else◌,
  arith,
}
use debian_pygobject.CInt.{pos}
use debian_pygobject.Constants.{TypeSystem, no_gtype}
use debian_pygobject.Constants.Convert.{look_up, other_arg}
use debian_pygobject.Values.{
  Glib, Python, Marshals, int_object, none_object, Fundamental, int_type, ulong_type, boxed_type,
  boxed_type, Content, number, pointer, stored, not_sequence, class_arg, int_class,
}
use debian_pygobject.Values.ToPython.{Wrapping, object, no_object, value_as_pyobject, int_or_long}
use debian_pygobject.Values.TypeFrom.{type_from_object}
use debian_pygobject.Values.FromPython.{value_from_pyobject, plain_item_type}
use debian_pygobject.Values.Lookup.{type_lookup, Nearest, type_lookup-Nearest, Climbs}
use debian_pygobject.Values.Fitting.{FitsAs, Stored}
use debian_pygobject.Values.Simple.{GintValues}
use debian_pygobject.Values.{boxed_object}
use debian_pygobject.Values.Checked.{NotPointer, WrongWrapper}
use debian_pygobject.Values.Typed.{MarshalsFit, value_from_pyobject-Fits}
use debian_pygobject.Values.RoundTrip.{number_roundtrip}
use debian_pygobject.Values.Ending.{Ends}
use debian_pygobject.Values.Recursion.{PlainClasses, Finds, value_from_pyobject-Ends}

abbrev no_types : TypeSystem
no_types = record {
  type_name = λ t. [];
  is_enum = λ t. false;
  is_flags = λ t. false;
  class_values = λ t. [];
  get_value = λ t v. none;
  get_first_value = λ t v. none;
  get_value_by_name = λ t s. none;
  get_value_by_nick = λ t s. none;
  import_class = λ t. none;
  can_create = λ s. false;
}

abbrev kind_of : Bool → Fundamental
kind_of true = int_type
kind_of false = boxed_type

abbrev zero_of : Bool → Content
zero_of true = number (pos 0)
zero_of false = pointer none

abbrev pub glib : Glib
glib = record {
  fundamental = λ t. kind_of (t == 1);
  standard = λ f. 1;
  is_a = λ t u. t == u;
  parent = λ t. 0;
  type_from_name = λ s. 0;
  instance_is_a = λ a t. true;
  to_float = λ b. b;
  initial = λ t. zero_of (t == 1);
  types = no_types;
  gobject_gtype = 80;
  py_object_gtype = 90;
  value_gtype = 3;
  value_array_gtype = 4;
  gstring_gtype = 5;
}

abbrev pub all_of : Fundamental → Glib
all_of f = record glib { fundamental = λ t. f }

abbrev pub python : Python
python = record {
  str = λ o. none;
  is_true = λ o. none;
  as_long = λ o. none;
  as_long_long = λ o. none;
  as_double = λ o. none;
  unicode = λ o. none;
  sequence = λ o. not_sequence;
  class_of = λ o. class_arg int_class no_gtype;
  constant_arg = λ o. other_arg;
}

abbrev pub no_marshals : Marshals
no_marshals = record {
  attached = λ t. none;
  tovalue = λ tm c o. stored c;
  fromvalue = λ tm c. none;
}

abbrev pub wrapping : Wrapping
wrapping = record {
  wrap_object = λ a. no_object;
  wrap_pointer = λ t a. no_object;
  wrap_boxed = λ t a copy free. no_object;
  wrap_param = λ a. no_object;
  wrap_enum = λ t v. object (int_object v);
  wrap_flags = λ t v. object (int_object v);
}

no_types-GintValues : GintValues no_types
unfolding look_up
no_types-GintValues t s = tt

no_marshals-MarshalsFit : MarshalsFit 2 glib no_marshals
no_marshals-MarshalsFit t tm c o found h = h

zero-FitsAs : (b : Bool) (t : ℕ) → FitsAs glib (kind_of b) t (zero_of b)
unfolding FitsAs
zero-FitsAs true t = omega arith
zero-FitsAs false t = tt

-- The pointer of a wrapper of type 6 is not one for a value of the boxed type 2.
wrong_wrapper : WrongWrapper 2 glib no_marshals 2 (boxed_object 6 (some 9))
unfolding type_lookup
wrong_wrapper = (refl, refl, refl, refl)

value_from_pyobject-Fits_example :
    Stored
      (FitsAs glib (glib.fundamental 2) 2)
      (value_from_pyobject 2 2 glib python no_marshals 2 (pointer none) (boxed_object 6 (some 9)))
    × (WrongWrapper 2 glib no_marshals 2 (boxed_object 6 (some 9))
        → Stored NotPointer (
            value_from_pyobject 2 2 glib python no_marshals 2
              (pointer none)
              (boxed_object 6 (some 9))))
value_from_pyobject-Fits_example =
    value_from_pyobject-Fits 2 2 glib python no_marshals no_types-GintValues no_marshals-MarshalsFit
      (λ u. zero-FitsAs (u == 1) u) 2 (pointer none) (boxed_object 6 (some 9)) (zero-FitsAs false 2)

number_roundtrip_example :
    (value_from_pyobject 1 2
        (all_of ulong_type)
        python
        no_marshals
        1
        (number (pos 0))
        (int_or_long (pos (2 ^ 63)))
      ≡ stored (number (pos (2 ^ 63))))
    × (value_as_pyobject 2 (all_of ulong_type) no_marshals wrapping true 1 (number (pos (2 ^ 63)))
        ≡ object (int_or_long (pos (2 ^ 63))))
number_roundtrip_example =
    number_roundtrip 0 2 (all_of ulong_type) python no_marshals wrapping true ulong_type
      (pos (2 ^ 63)) 1 (number (pos 0)) tt (omega arith) refl

abbrev with_nul : List ℕ
with_nul = 97 ∷ (0 ∷ (98 ∷ []))

-- Every type but 0 is a root of its own.
abbrev rank : ℕ → ℕ
rank t = if t == 0 then 0 else 1

rank-Climbs : Climbs glib rank
rank-Climbs t h = ground arith

rank-lt : (t : ℕ) → rank t < 2
rank-lt t = ground arith

glib-Finds : Finds 2 glib no_marshals
glib-Finds t =
    let (r, found, near) = type_lookup-Nearest glib no_marshals rank rank-Climbs 2 t (rank-lt t) in
    (r, found)

python-PlainClasses : PlainClasses glib python
unfolding type_from_object plain_item_type
python-PlainClasses none_object = ((refl, refl), (refl, refl))
python-PlainClasses o = ((refl, refl), (refl, refl))

value_from_pyobject-Ends_example :
    Ends (value_from_pyobject 2 2 glib python no_marshals 1 (number (pos 0)) (int_object (pos 42)))
value_from_pyobject-Ends_example =
    value_from_pyobject-Ends 2 glib python no_marshals glib-Finds (λ tm c o. tt) 0 1
      (number (pos 0)) (int_object (pos 42)) python-PlainClasses

type_lookup-Nearest_example :
    (r : Option ℕ) × (type_lookup 2 glib no_marshals 1 ≡ some r) × Nearest glib no_marshals 1 r
type_lookup-Nearest_example = type_lookup-Nearest glib no_marshals rank rank-Climbs 2 1 (rank-lt 1)
