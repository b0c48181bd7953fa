-- ===== src/Core/Auth/Mode.antt =====
-- crates/litevpn-core/src/auth.rs: which lines `parse_mode` takes for which modes.
use rust_vpn.Prelude.{
  refl, ℕ, ◌≤◌, ◌<◌, ◌≡◌, ◌≢◌, list_eq_iff, List, [], ◌∷◌, Option, none, some, ok, arith,
}
use rust_vpn.Core.Auth.{
  AuthMode, BenchDirection, upload, download, stream_upload, stream_download, stream_packet_upload,
  stream_packet_download, next, as_str, parse_direction, vpn, bench, parse_parts, parse_field,
  parse_target, parse_mode, AuthError, missing_duration, bad_duration, parse_mode_line,
}
use rust_vpn.Text.{Text, chars}
use rust_vpn.Text.Lines.{lines}
use rust_vpn.Text.Number.{max_u64, parse_u64, parse_u64-le}
use rust_vpn.Text.Words.{words}

abbrev pub IsTarget : Option ℕ → Type 0
IsTarget none = Unit {0}
IsTarget (some t) = (0 < t) × (t ≤ max_u64)

-- The bounds of a bench request: a second or more, 64 to 1452 bytes a packet, and no limit of 0.
abbrev pub IsAccepted : AuthMode → Type 0
IsAccepted vpn = Unit {0}
IsAccepted (bench direction duration_secs payload_bytes target_mbps) =
    (0 < duration_secs)
    × (duration_secs ≤ max_u64)
    × (64 ≤ payload_bytes)
    × (payload_bytes ≤ 1452)
    × IsTarget target_mbps

parse_field-le :
    (field : Option Text) (missing invalid : AuthError) (n : ℕ)
    → parse_field field missing invalid ≡ ok n
    → n ≤ max_u64
unfolding parse_field
parse_field-le none missing invalid n h = cc
parse_field-le (some v) missing invalid n h = ground (arith, parse_u64-le v {r = n})

parse_target-IsTarget : (part : Option Text) (t : Option ℕ) → parse_target part ≡ ok t → IsTarget t
unfolding parse_target
parse_target-IsTarget none t h = ground arith
parse_target-IsTarget (some v) none h = tt
parse_target-IsTarget (some v) (some t) h = ground (arith, parse_u64-le v {r = t})

parse_parts-IsAccepted : (ps : List Text) (m : AuthMode) → parse_parts ps ≡ ok m → IsAccepted m
unfolding parse_parts
parse_parts-IsAccepted ps vpn h = tt
parse_parts-IsAccepted [] (bench d n p t) h = cc
parse_parts-IsAccepted (k ∷ []) (bench d n p t) h =
    ground
      (arith, parse_field-le none missing_duration bad_duration n, parse_target-IsTarget none t)
parse_parts-IsAccepted (k ∷ w ∷ []) (bench d n p t) h =
    ground
      (arith, parse_field-le none missing_duration bad_duration n, parse_target-IsTarget none t)
parse_parts-IsAccepted (k ∷ w ∷ x ∷ []) (bench d n p t) h =
    ground
      (arith, parse_field-le (some x) missing_duration bad_duration n, parse_target-IsTarget none t)
parse_parts-IsAccepted (k ∷ w ∷ x ∷ y ∷ []) (bench d n p t) h =
    ground
      (arith, parse_field-le (some x) missing_duration bad_duration n, parse_target-IsTarget none t)
parse_parts-IsAccepted (k ∷ w ∷ x ∷ y ∷ z ∷ r) (bench d n p t) h = ground (
  arith,
  parse_field-le (some x) missing_duration bad_duration n,
  parse_target-IsTarget (some z) t,
)

pub parse_mode_line-IsAccepted :
    (line : Option Text) (m : AuthMode) → parse_mode_line line ≡ ok m → IsAccepted m
unfolding parse_mode_line parse_mode
parse_mode_line-IsAccepted none m h = ground arith
parse_mode_line-IsAccepted (some line) m h = parse_parts-IsAccepted (words line) m h

-- The last field of a bench line, which may be missing; 0 stands for no limit.
abbrev pub IsTargetField : List Text → Option ℕ → Type 0
IsTargetField [] none = Unit {0}
IsTargetField [] (some t) = ⊥
IsTargetField (field ∷ []) none = parse_u64 field ≡ some 0
IsTargetField (field ∷ []) (some t) = parse_u64 field ≡ some t
IsTargetField (field ∷ more ∷ fields) target = ⊥

-- The words of a line that asks for a bench: the keyword, the direction and two or three numbers.
pub record IsBenchLine (line : List Text) (direction : BenchDirection)
    (duration_secs payload_bytes : ℕ) (target_mbps : Option ℕ) : Type 0 where
  pub duration : Text
  pub payload : Text
  pub last : List Text
  pub fields : line ≡ chars "bench" ∷ as_str direction ∷ duration ∷ payload ∷ last
  pub seconds : parse_u64 duration ≡ some duration_secs
  pub bytes : parse_u64 payload ≡ some payload_bytes
  pub target : IsTargetField last target_mbps

-- The lines behind the token: none for the tunnel, and one for a bench.
abbrev pub AsksFor : List Text → AuthMode → Type 0
AsksFor [] vpn = Unit {0}
AsksFor [] (bench direction duration_secs payload_bytes target_mbps) = ⊥
AsksFor (line ∷ []) vpn = ⊥
AsksFor (line ∷ []) (bench direction duration_secs payload_bytes target_mbps) =
    IsBenchLine (words line) direction duration_secs payload_bytes target_mbps
AsksFor (line ∷ more ∷ lines) mode = ⊥

unfoldable pub as_fields : Option Text → List Text
as_fields none = []
as_fields (some w) = w ∷ []

parse_target-field :
    (field : Option Text) (t : Option ℕ)
    → parse_target field ≡ ok t
    → IsTargetField (as_fields field) t
unfolding parse_target as_fields
parse_target-field none none h = tt
parse_target-field none (some t) h = ground arith
parse_target-field (some v) none h = ground arith
parse_target-field (some v) (some t) h = ground arith

parse_direction-as_str :
    (w : Text) (d : BenchDirection) → parse_direction (some w) ≡ ok d → w ≡ as_str d
unfolding parse_direction as_str
parse_direction-as_str w d h = ground (
  arith,
  list_eq_iff w (chars "upload"),
  list_eq_iff w (chars "download"),
  list_eq_iff w (chars "stream-upload"),
  list_eq_iff w (chars "stream-download"),
  list_eq_iff w (chars "stream-packet-upload"),
  list_eq_iff w (chars "stream-packet-download"),
)

parse_parts-keyword :
    (k w : Text) (ws : List Text) (d : BenchDirection) (n p : ℕ) (t : Option ℕ)
    → parse_parts (k ∷ w ∷ ws) ≡ ok (bench d n p t)
    → (k ≡ chars "bench") × (w ≡ as_str d)
unfolding parse_parts
parse_parts-keyword k w ws d n p t h =
    (ground (arith, list_eq_iff k (chars "bench")), parse_direction-as_str w d (ground arith))

parse_parts-bench :
    (ps : List Text) (d : BenchDirection) (n p : ℕ) (t : Option ℕ)
    → parse_parts ps ≡ ok (bench d n p t)
    → IsBenchLine ps d n p t
unfolding parse_parts parse_field parse_target as_fields
parse_parts-bench [] d n p t h = absurd (cc)
parse_parts-bench (k ∷ []) d n p t h = absurd (ground arith)
parse_parts-bench (k ∷ w ∷ []) d n p t h = absurd (ground arith)
parse_parts-bench (k ∷ w ∷ x ∷ []) d n p t h = absurd (ground arith)
parse_parts-bench (k ∷ w ∷ x ∷ y ∷ []) d n p t h =
    let (keyword, direction) = parse_parts-keyword k w (x ∷ y ∷ []) d n p t h in
    record {
      duration = x;
      payload = y;
      last = [];
      fields = rw (keyword, direction) refl;
      seconds = ground arith;
      bytes = ground arith;
      target = parse_target-field none t (ground arith);
    }
parse_parts-bench (k ∷ w ∷ x ∷ y ∷ z ∷ []) d n p t h =
    let (keyword, direction) = parse_parts-keyword k w (x ∷ y ∷ z ∷ []) d n p t h in
    record {
      duration = x;
      payload = y;
      last = z ∷ [];
      fields = rw (keyword, direction) refl;
      seconds = ground arith;
      bytes = ground arith;
      target = parse_target-field (some z) t (ground arith);
    }
parse_parts-bench (k ∷ w ∷ x ∷ y ∷ z ∷ q ∷ r) d n p t h = absurd (ground arith)

parse_parts_not_vpn : (ps : List Text) → parse_parts ps ≢ ok vpn
unfolding parse_parts
parse_parts_not_vpn ps h = ground arith

pub parse_mode_line-AsksFor :
    (line : Option Text) (m : AuthMode) → parse_mode_line line ≡ ok m → AsksFor (as_fields line) m
unfolding parse_mode_line parse_mode as_fields
parse_mode_line-AsksFor none vpn h = tt
parse_mode_line-AsksFor none (bench d n p t) h = absurd (ground arith)
parse_mode_line-AsksFor (some line) vpn h = absurd (parse_parts_not_vpn (words line) h)
parse_mode_line-AsksFor (some line) (bench d n p t) h = parse_parts-bench (words line) d n p t h

parse_direction-own : (d : BenchDirection) → parse_direction (some (as_str d)) ≡ ok d
unfolding parse_direction as_str
parse_direction-own upload = refl
parse_direction-own download = refl
parse_direction-own stream_upload = refl
parse_direction-own stream_download = refl
parse_direction-own stream_packet_upload = refl
parse_direction-own stream_packet_download = refl

parse_target-read :
    (fields : List Text) (t : Option ℕ)
    → IsTargetField fields t
    → IsTarget t
    → (parse_target (next fields).0 ≡ ok t) × ((next (next fields).1).0 ≡ none)
unfolding parse_target
parse_target-read [] none f h = (refl, refl)
parse_target-read [] (some t) f h = absurd f
parse_target-read (w ∷ []) none f h = (rw f refl, refl)
parse_target-read (w ∷ []) (some t) f h = (rw f (ground arith), refl)
parse_target-read (w ∷ v ∷ fields) t f h = absurd f

pub parse_parts-read :
    (d : BenchDirection) (n p : ℕ) (t : Option ℕ) (line : List Text)
    → IsBenchLine line d n p t
    → IsAccepted (bench d n p t)
    → parse_parts line ≡ ok (bench d n p t)
unfolding parse_parts parse_field
parse_parts-read d n p t line b h =
    let (target, over) = parse_target-read b.last t b.target h.4 in
    rw (b.fields, parse_direction-own d, b.seconds, b.bytes, target, over) (ground arith)
