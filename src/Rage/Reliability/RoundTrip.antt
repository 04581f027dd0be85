-- ===== src/Rage/Reliability/RoundTrip.antt =====
-- Reading back what `build_nack` writes.
use baston.Prelude.Bytes.{to_le}
use baston.Prelude.{
  if◌then◌else◌, refl, ℕ, ◌%◌, ◌^◌, ◌<◌, ◌≡◌, arith, Bool, true, false, Option, none, some, List,
  [], ◌∷◌, ◌++◌, length, All,
}
use baston.Rage.Reliability.{
  IgnoreEntry, GameStateNAck, has, is_missing_frames, has_ignore_list, has_recreate_list,
  ignore_entries, ignore_list, recreate_ids, recreate_list, frame_pair, when, read_nack, parse_nack,
  entries_bytes, ids_bytes, frames_bytes, build_nack,
}
use baston.Rage.Reliability.Cursor.{
  Reader, start, u8, u16, u64, Reads, Reads-pure, Reads-bind, Reads-le, Reads-u8, Reads-last,
}

abbrev pub IsU64 : ℕ → Type 0
IsU64 n = n < 256 ^ 8

abbrev pub IsU16 : ℕ → Type 0
IsU16 n = n < 256 ^ 2

pub record IsEntry (e : IgnoreEntry) : Type 0 where
  pub id : IsU16 e.object_id
  pub frame : IsU64 e.last_frame

Reads-entries :
    (es : List IgnoreEntry)
    → All IsEntry es
    → Reads (ignore_entries (length es)) (entries_bytes es) es
unfolding ignore_entries entries_bytes
Reads-entries [] h = Reads-pure []
Reads-entries (e ∷ es) h =
    Reads-bind u16 _ (to_le 2 e.object_id) _ e.object_id (e ∷ es) (Reads-le 2 e.object_id h.0.id) (
      Reads-bind u64 _ (to_le 8 e.last_frame) _ e.last_frame (e ∷ es)
        (Reads-le 8 e.last_frame h.0.frame)
        (Reads-last _ _ (entries_bytes es) es (e ∷ es) (Reads-entries es h.1)
          (Reads-pure (e ∷ es))))

Reads-ids : (ids : List ℕ) → All IsU16 ids → Reads (recreate_ids (length ids)) (ids_bytes ids) ids
unfolding recreate_ids ids_bytes
Reads-ids [] h = Reads-pure []
Reads-ids (id ∷ ids) h =
    Reads-bind u16 _ (to_le 2 id) _ id (id ∷ ids) (Reads-le 2 id h.0)
      (Reads-last _ _ (ids_bytes ids) ids (id ∷ ids) (Reads-ids ids h.1) (Reads-pure (id ∷ ids)))

Reads-ignore_list :
    (es : List IgnoreEntry)
    → All IsEntry es
    → length es < 256
    → Reads ignore_list ((length es % 256) ∷ entries_bytes es) es
unfolding ignore_list
Reads-ignore_list es h small =
    let count : length es % 256 ≡ length es = omega arith in
    rw count (
      Reads-bind u8 ignore_entries (length es ∷ []) (entries_bytes es) (length es) es
        (Reads-u8 (length es)) (Reads-entries es h))

Reads-recreate_list :
    (ids : List ℕ)
    → All IsU16 ids
    → length ids < 256
    → Reads recreate_list ((length ids % 256) ∷ ids_bytes ids) ids
unfolding recreate_list
Reads-recreate_list ids h small =
    let count : length ids % 256 ≡ length ids = omega arith in
    rw count (
      Reads-bind u8 recreate_ids (length ids ∷ []) (ids_bytes ids) (length ids) ids
        (Reads-u8 (length ids)) (Reads-ids ids h))

Reads-when :
    {A : Type 0} (flag : Bool) (m : Reader A) (bytes : List ℕ) (missing a : A)
    → (flag ≡ true → Reads m bytes a)
    → (flag ≡ false → a ≡ missing)
    → Reads (when flag m missing) (if flag then bytes else []) a
Reads-when true m bytes missing a set unset = set refl
Reads-when false m bytes missing a set unset = λ c rest at. (c, rw (unset refl), at)

-- The missing frames are there exactly if their flag is set.
abbrev pub FramesAgree : ℕ → Option (ℕ × ℕ) → Type 0
FramesAgree flags none = has flags is_missing_frames ≡ false
FramesAgree flags (some (first, last)) =
    (has flags is_missing_frames ≡ true) × IsU64 first × IsU64 last

Reads-frames :
    (flags : ℕ) (missing : Option (ℕ × ℕ))
    → FramesAgree flags missing
    → Reads (when (has flags is_missing_frames) frame_pair none) (frames_bytes missing) missing
unfolding frames_bytes frame_pair
Reads-frames flags none h = λ c rest at. (c, rw h, at)
Reads-frames flags (some (first, last)) (set, hf, hl) = rw set (
    Reads-bind u64 _ (to_le 8 first) (to_le 8 last) first (some (first, last)) (Reads-le 8 first hf)
      (Reads-last u64 _ (to_le 8 last) last (some (first, last)) (Reads-le 8 last hl)
        (Reads-pure (some (first, last)))))

-- The packets that the format can carry: fields in range, at most 255 entries to a list, and each
-- optional part there only if its flag is set.
pub record IsWellFormed (n : GameStateNAck) : Type 0 where
  pub frame : IsU64 n.frame_index
  pub frames : FramesAgree n.flags n.missing_frames
  pub entries : All IsEntry n.ignore_list
  pub few_entries : length n.ignore_list < 256
  pub no_entries : has n.flags has_ignore_list ≡ false → n.ignore_list ≡ []
  pub ids : All IsU16 n.recreate_list
  pub few_ids : length n.recreate_list < 256
  pub no_ids : has n.flags has_recreate_list ≡ false → n.recreate_list ≡ []

Reads-nack : (n : GameStateNAck) → IsWellFormed n → Reads read_nack (build_nack n) n
unfolding read_nack build_nack
Reads-nack n w =
    let ignored = (length n.ignore_list % 256) ∷ entries_bytes n.ignore_list in
    let recreated = (length n.recreate_list % 256) ∷ ids_bytes n.recreate_list in
    Reads-bind u8 _ (n.flags ∷ []) _ n.flags n (Reads-u8 n.flags) (
      Reads-bind u64 _ (to_le 8 n.frame_index) _ n.frame_index n (Reads-le 8 n.frame_index w.frame)
        (Reads-bind _ _ (frames_bytes n.missing_frames) _ n.missing_frames n
          (Reads-frames n.flags n.missing_frames w.frames)
          (Reads-bind _ _ (if has n.flags has_ignore_list then ignored else []) _ n.ignore_list n
            (Reads-when _ ignore_list ignored [] n.ignore_list
              (λ _. Reads-ignore_list n.ignore_list w.entries w.few_entries) w.no_entries)
            (Reads-last _ _ (if has n.flags has_recreate_list then recreated else [])
              n.recreate_list n
              (Reads-when _ recreate_list recreated [] n.recreate_list
                (λ _. Reads-recreate_list n.recreate_list w.ids w.few_ids) w.no_ids)
              (Reads-pure n)))))

-- A well-formed `gameStateNAck` is parsed back from its bytes, whatever bytes follow them.
pub parse_nack-build_nack :
    (n : GameStateNAck) (rest : List ℕ)
    → IsWellFormed n
    → parse_nack (build_nack n ++ rest) ≡ some n
unfolding parse_nack
parse_nack-build_nack n rest w =
    let (c, read, _) =
      Reads-nack n w (start (build_nack n ++ rest)) rest
        (record { unread = refl; inside = omega arith }) in
    rw read
