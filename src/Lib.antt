-- ===== src/Lib.antt =====
-- PyGObject: the Python bindings of GLib and GObject. The C code under gobject/ gives every GObject a
-- Python wrapper, makes Python classes of enum and flags types, and connects Python functions to
-- signals by closures; the C code under glib/ wraps GLib's own objects, IO channels among them, and
-- turns GError into exceptions. Both rest on the reference counts of CPython and of GObject, and what
-- is hard about them is who holds a reference when.
--
-- Base and CInt are the helpers: numbers, lists and byte strings, and the C integers of a 64-bit
-- platform. The other modules model these parts, an address standing for each object:
--   Constants       what pygenum.c and pygflags.c share: the values of a GLib class, the store of
--                   constant objects with their counts, the loop that registers them;
--                   Constants/Compare and Constants/Prefix are pyg_integer_richcompare and
--                   pyg_constant_strip_prefix of gobject/gobjectmodule.c, Constants/Convert is
--                   pyg_enum_get_value and pyg_flags_get_value of gobject/pygtype.c
--   Enum            gobject/pygenum.c: enum_new is pyg_enum_new, enum_add pyg_enum_add,
--                   enum_from_gtype pyg_enum_from_gtype
--   Flags           gobject/pygflags.c, with the same names, generate_repr and the bit operators
--   Wrapper         gobject/pygobject.c: new_full is pygobject_new_full, clear pygobject_clear,
--                   switch_to_toggle_ref pygobject_switch_to_toggle_ref; the calls to GLib that
--                   move references are logged, and the references are counted over the log
--   Closures        the list of watched closures of gobject/pygobject.c and PyGClosure of
--                   gobject/pygtype.c
--   WeakRef         PyGObjectWeakRef of gobject/pygobject.c, with the steps of its callers
--   Slots           pygobject_inherit_slots of gobject/pygobject.c
--   IoChannel       glib/pygiochannel.c: read_chars, read_lines, write_lines and their kin, over a
--                   channel of any state
--   Errors          the GError functions of glib/pyglib.c
--   Boxed           gobject/pygboxed.c: the ownership of boxed values
--   MainLoop        glib/pygmainloop.c: the loop that runs in a thread
--   Threads         glib/pyglib.c: enabling threads, and taking and giving back the GIL
--   Values          the conversions between Python objects and GValues of gobject/pygtype.c, as they
--                   are on Python 2: value_from_pyobject is pyg_value_from_pyobject,
--                   value_as_pyobject pyg_value_as_pyobject; Values/Fitting to Values/Typed say
--                   what a GValue may hold, Values/Ending and Values/Recursion when a conversion
--                   ends
--   Signals         connecting, emitting and disconnecting in gobject/pygobject.c, with the two
--                   marshallers of gobject/pygtype.c that call Python; Chain is
--                   pygobject_chain_from_overridden, Hooks and Accumulator the emission hooks and
--                   _pyg_signal_accumulator of gobject/gobjectmodule.c
--   Properties      the properties of a GObject in gobject/pygobject.c: the methods, `props`,
--                   __init__; New is pyg_object_new and Callbacks pyg_object_set_property and
--                   pyg_object_get_property of gobject/gobjectmodule.c
--   Registration    pyg_type_register of gobject/gobjectmodule.c and what it calls; PropertySpecs is
--                   create_property
--   Classes         the Python class of a type in gobject/pygobject.c: lookup_class is
--                   pygobject_lookup_class, new_with_interfaces pygobject_new_with_interfaces and
--                   register_class pygobject_register_class
--   Sources         glib/pygsource.c: the methods of glib.Source with the calls to GLib logged; Funcs
--                   has the functions that GLib calls for a source in Python
--   Watches         idle_add, timeout_add, io_add_watch and child_watch_add of glib/glibmodule.c and
--                   add_watch of glib/pygiochannel.c; Run has what GLib calls then
--   Options         glib/pygoptiongroup.c and glib/pygoptioncontext.c: who holds a group; Entries is
--                   add_entries, Parsing has parse and arg_func
--   Spawn           spawn_async of glib/pygspawn.c
--   Examples        the theorems at sample inputs
--
-- A function that can fail returns Result, Option or an outcome type; a read through a null
-- pointer or outside an array is an outcome of its own. GLib and Python are parameters:
-- TypeSystem and Env for what GLib answers, functions for the calls of a channel. In Values, Glib
-- and Python are records of what the two answer; a float is the number of its bits, and a boxed
-- value is known by the address that it was copied from. The loops of read and readlines take
-- fuel, one unit for each round: a round that goes on reads at least one byte or one line, so the
-- bytes or lines that are left and two more are enough. A conversion of a GValue takes fuel for
-- the conversions inside it, of which two are enough where no Python class stands for a GValue;
-- the functions that climb from a type to its parents take one unit for each type, and
-- lookup_class one for each level of types.
--
-- Not modelled: failed allocations, the GIL around each operation, most callbacks that reenter the
-- code, and the parts that hand arguments to GLib and results back: pointer types, param specs,
-- interfaces, main contexts, the other functions of the glib module, the libffi marshaller, the
-- registration of type objects, and the gio bindings, which are generated from their definitions.
pub mod Base
pub mod CInt
pub mod Constants
pub mod Enum
pub mod Flags
pub mod Wrapper
pub mod Closures
pub mod WeakRef
pub mod IoChannel
pub mod Slots
pub mod Sources
pub mod Watches
pub mod Options
pub mod Classes
pub mod Spawn
pub mod Errors
pub mod Boxed
pub mod MainLoop
pub mod Threads
pub mod Values
pub mod Signals
pub mod Properties
pub mod Registration
pub mod Examples
