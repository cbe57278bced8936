-- ===== src/Values/TypeFrom.antt =====
-- pyg_type_from_object of gobject/pygtype.c: 0 stands for the exception.
use debian_pygobject.Base.{ℕ, not, ◌==◌, if◌then◌else◌}
use debian_pygobject.Constants.{GtypeAttr, no_gtype, not_typecode, typecode}
use debian_pygobject.Values.{
  Glib, none_type, int_type, boolean_type, long_type, double_type, string_type, TypeArg, null_arg,
  none_arg, class_arg, wrapper_arg, text_arg, other_arg, int_class, bool_class, long_class,
  float_class, text_class, object_class, other_class,
}

-- The `__gtype__` attribute.
unfoldable pub type_from_attr : GtypeAttr → ℕ
type_from_attr no_gtype = 0
type_from_attr not_typecode = 0
type_from_attr (typecode t) = t

unfoldable pub type_from_object : Glib → TypeArg → ℕ
unfolding type_from_attr
type_from_object g null_arg = 0
type_from_object g none_arg = g.standard none_type
type_from_object g (class_arg int_class a) = g.standard int_type
type_from_object g (class_arg bool_class a) = g.standard boolean_type
type_from_object g (class_arg long_class a) = g.standard long_type
type_from_object g (class_arg float_class a) = g.standard double_type
type_from_object g (class_arg text_class a) = g.standard string_type
type_from_object g (class_arg object_class a) = g.py_object_gtype
type_from_object g (class_arg other_class a) = type_from_attr a
type_from_object g (wrapper_arg t) = t
type_from_object g (text_arg s a) =
    let t = g.type_from_name s in if not (t == 0) then t else type_from_attr a
type_from_object g (other_arg a) = type_from_attr a
