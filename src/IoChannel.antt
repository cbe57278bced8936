-- ===== src/IoChannel.antt =====
-- The Python methods of GIOChannel, glib/pygiochannel.c. The channel itself is GLib's: a state of
-- any type, and the functions that act on it. A failed allocation is not modelled.
pub mod Lines
pub mod Readable
pub mod Written
use debian_pygobject.Base.{
  ℕ, zero, suc, ◌+◌, ◌*◌, ◌-◌, ◌&&◌, ◌⊎◌, inl, inr, Bool, true, false, Option, none, some, is_some,
  List, [], ◌∷◌, ◌++◌, ◌==◌, ltb, if◌then◌else◌, length, CString,
}
use debian_pygobject.CInt.{ℤ, pos, negsuc, zeq, word64}

-- GIOStatus
pub data Status : Type 0 where
  error normal eof again : Status

unfoldable pub is_normal : Status → Bool
is_normal error = false
is_normal normal = true
is_normal eof = false
is_normal again = false

-- What g_io_channel_read_chars gives: the bytes that it has written to the buffer, and the GError.
pub record ReadResult {ℓ} (S : Type ℓ) : Type ℓ where
  pub status : Status
  pub bytes : CString
  pub gerror : Option ℕ
  pub after : S

-- The string object of `read`: its size, and the bytes written to its start.
pub record Buffer : Type 0 where
  pub size : ℕ
  pub filled : CString

pub data ReadOutcome {ℓ} (S : Type ℓ) : Type ℓ where
  returned : CString → S → ReadOutcome S
  -- glib.GError; the bytes read so far are lost
  raised : ℕ → S → ReadOutcome S
  -- a write that may leave the string object
  overflow : ReadOutcome S
  -- the size of a string that was never made
  null_dereference : ReadOutcome S
  out_of_fuel : ReadOutcome S

abbrev pub chunk_size : ℕ
chunk_size = 8 * 1024

-- `max_count` as the comparison with a gsize reads it; `none` for -1.
unfoldable pub read_limit : ℤ → Option ℕ
read_limit max_count = if zeq max_count (negsuc 0) then none else some (word64 max_count)

unfoldable pub wants_more : Option ℕ → ℕ → Bool
wants_more none total_read = true
wants_more (some max_count) total_read = ltb total_read max_count

unfoldable pub read_size : Option ℕ → ℕ → ℕ
read_size none total_read = chunk_size
read_size (some max_count) total_read =
    let buf_size = max_count - total_read in
    if ltb chunk_size buf_size then chunk_size else buf_size

-- The string object is made, or made larger.
unfoldable pub fit_buffer : Option Buffer → ℕ → ℕ → Buffer
fit_buffer none buf_size total_read = record { size = buf_size; filled = [] }
fit_buffer (some b) buf_size total_read =
    if ltb (b.size) (buf_size + total_read) then record b { size = buf_size + total_read } else b

-- The end of `read`.
unfoldable pub finish_read {ℓ} : {S : Type ℓ} → Option Buffer → S → ReadOutcome S
finish_read none s = null_dereference
finish_read (some b) s = returned (b.filled) s

module _ {ℓ} {S : Type ℓ} (read : S → ℕ → ReadResult S) where
  -- The loop of py_io_channel_read_chars.
  unfoldable pub read_loop : ℕ → Option ℕ → Status → Option Buffer → ℕ → S → ReadOutcome S
  unfolding is_normal wants_more read_size fit_buffer finish_read
  read_loop zero max_count status buf total_read s = out_of_fuel
  read_loop (suc k) max_count status buf total_read s =
      elim (is_normal status && wants_more max_count total_read) [
        | false ↦ finish_read buf s
        | true ↦
            let buf_size = read_size max_count total_read in
            let b = fit_buffer buf buf_size total_read in
            elim (ltb (b.size) (total_read + buf_size)) [
              | true ↦ overflow
              | false ↦
                  let r = read s buf_size in
                  elim (r.gerror) [
                    | some e ↦ raised e (r.after)
                    | none ↦
                        read_loop k max_count (r.status)
                          (some (record b { filled = b.filled ++ r.bytes }))
                          (total_read + length (r.bytes)) (r.after)
                  ]
            ]
      ]

  -- py_io_channel_read_chars, `read`
  unfoldable pub read_chars : ℕ → ℤ → S → ReadOutcome S
  unfolding read_loop read_limit
  read_chars fuel max_count s = elim (zeq max_count (pos 0)) [
    | true ↦ returned [] s
    | false ↦ read_loop fuel (read_limit max_count) normal none 0 s
  ]

-- py_io_channel_seek: `none` is ValueError for a bad `whence`.
pub data SeekType : Type 0 where
  seek_set seek_cur seek_end : SeekType

unfoldable pub seek_type : ℤ → Option SeekType
seek_type whence =
    if zeq whence (pos 0)
    then some seek_set
    else (if zeq whence (pos 1)
        then some seek_cur
        else (if zeq whence (pos 2) then some seek_end else none))

unfoldable pub seek {ℓ} :
    {S : Type ℓ} → (S → ℤ → SeekType → (ℕ ⊎ Status) × S) → ℤ → ℤ → S → Option (ℕ ⊎ Status) × S
unfolding seek_type
seek seek_position offset whence s = elim (seek_type whence) [
  | none ↦ (none, s)
  | some t ↦ let (r, after) = seek_position s offset t in (some r, after)
]

-- py_io_channel_init: the calls that make the channel, or TypeError without a descriptor and a name.
pub data InitResult : Type 0 where
  opened : ℕ → InitResult
  not_opened : ℕ → InitResult
  type_error : InitResult

unfoldable pub init :
    (ℤ → ℕ) → (CString → CString → ℕ ⊎ ℕ) → ℤ → Option CString → CString → InitResult
init unix_new new_file fd filename mode =
    if zeq fd (negsuc 0)
    then elim filename [
      | none ↦ type_error
      | some f ↦ elim (new_file f mode) [ inl e ↦ not_opened e | inr channel ↦ opened channel ]
    ]
    else opened (unix_new fd)
