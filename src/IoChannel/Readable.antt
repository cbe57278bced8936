-- ===== src/IoChannel/Readable.antt =====
-- `read` of GIOChannel, on a channel that gives its bytes in order.
use debian_pygobject.Base.{
  ℕ, ◌≤◌, ◌<◌, ◌≡◌, ◌⊎◌, Bool, true, false, Option, none, some, [], ◌++◌, leb, length, CString,
}
use debian_pygobject.IoChannel.{is_normal, ReadResult, Buffer, ReadOutcome, returned, raised}

abbrev filled_of : Option Buffer → CString
filled_of none = []
filled_of (some b) = b.filled

-- A count is within the limit.
abbrev pub within : Option ℕ → ℕ → Bool
within none n = true
within (some m) n = leb n m

module _ {ℓ} {S : Type ℓ} (read : S → ℕ → ReadResult S) (left : S → CString) where
  -- g_io_channel_read_chars on a blocking channel without an encoding: it fills at most the buffer,
  -- with the next bytes that are left; a normal result has at least one byte where one was asked for,
  -- and one that is not normal leaves none. With an encoding GLib may give none for less than six.
  pub record IsChannel : Type ℓ where
    pub fits : (s : S) (n : ℕ) → length ((read s n).bytes) ≤ n
    pub gives :
        (s : S) (n : ℕ)
        → (read s n).gerror ≡ none
        → (read s n).bytes ++ left ((read s n).after) ≡ left s
    pub moves :
        (s : S) (n : ℕ)
        → 0 < n
        → (read s n).gerror ≡ none
        → is_normal ((read s n).status) ≡ true
        → 0 < length ((read s n).bytes)
    pub ends :
        (s : S) (n : ℕ)
        → (read s n).gerror ≡ none
        → is_normal ((read s n).status) ≡ false
        → left ((read s n).after) ≡ []

  -- The outcome of a read from `all`: the next bytes, as many as the limit allows or all of them; or
  -- the error of the channel.
  pub data IsRead (all : CString) (limit : Option ℕ) : ReadOutcome S → Type ℓ where
    whole :
        (text : CString) (s : S)
        → text ++ left s ≡ all
        → within limit (length text) ≡ true
        → (limit ≡ some (length text)) ⊎ (left s ≡ [])
        → IsRead all limit (returned text s)
    failed : (e : ℕ) (s : S) → IsRead all limit (raised e s)
