-- ===== src/Metadata/RoundTrip.antt =====
-- What AddMetadata writes, GetVolumes reads: the annotations of an image.
use csi_qsd.Base.{
  ℕ, zero, suc, ◌+◌, ◌/◌, ◌%◌, ◌^◌, ◌≤◌, ◌<◌, ◌≡◌, refl, true, false, inr, some, [], ◌∷◌, arith,
  if◌then◌else◌,
}
use csi_qsd.Go.Text.{Text, text, ◌==◌, ==_refl}
use csi_qsd.Go.Number.{ℤ, pos, negsuc, digits, format_ℕ, format_int}
use csi_qsd.Go.Table.{Table, lookup, lookup-insert}
use csi_qsd.Metadata.ParseInt.{value, max_uint32, scan, parse_uint, in_range, parse_int}
use csi_qsd.Metadata.Server.{
  Metadata, PersistentVolume, Cluster, ann_id, ann_qsd_id, ann_backing_image_id, ann_ref_count,
  annotate, parse_annotations,
}

-- the text begins with a digit
abbrev BeginsDigit : Text → Type 0
BeginsDigit [] = ⊥
BeginsDigit (c ∷ s) = (b'0' ≤ c) × (c ≤ b'9')

digits-BeginsDigit : (f n : ℕ) (out : Text) → n < f → BeginsDigit (digits f n out)
unfolding digits
digits-BeginsDigit zero n out h = absurd (omega arith)
digits-BeginsDigit (suc f) n out h =
    ground (arith, digits-BeginsDigit f (n / 10) ((b'0' + n % 10) ∷ out))

-- reading the digits of a number that fits gives the number
scan-digits : (f n : ℕ) (out : Text) → n < f → n ≤ max_uint32 → scan (digits f n out) 0 ≡ scan out n
unfolding digits scan
scan-digits zero n out h fits = absurd (omega arith)
scan-digits (suc f) n out h fits = ground (arith, scan-digits f (n / 10) ((b'0' + n % 10) ∷ out))

parse_uint_digits : (s : Text) → BeginsDigit s → parse_uint s ≡ scan s 0
unfolding parse_uint
parse_uint_digits [] h = elim h [ ]
parse_uint_digits (c ∷ s) h = refl

parse_int_digits : (s : Text) → BeginsDigit s → parse_int s ≡ in_range false (scan s 0)
unfolding parse_int
parse_int_digits [] h = elim h [ ]
parse_int_digits (c ∷ s) h = ground (arith, parse_uint_digits (c ∷ s) h)

-- the numbers that an int32 holds
abbrev pub FitsInt32 : ℤ → Type 0
FitsInt32 (pos n) = n < 2 ^ 31
FitsInt32 (negsuc n) = n < 2 ^ 31

format_ℕ-BeginsDigit : (n : ℕ) → BeginsDigit (format_ℕ n)
unfolding format_ℕ
format_ℕ-BeginsDigit n = digits-BeginsDigit (suc n) n [] (omega arith)

scan-format_ℕ : (n : ℕ) → n ≤ max_uint32 → scan (format_ℕ n) 0 ≡ value n
unfolding format_ℕ scan
scan-format_ℕ n fits = scan-digits (suc n) n [] (omega arith) fits

format_int-pos : (n : ℕ) → format_int (pos n) ≡ format_ℕ n
unfolding format_int
format_int-pos n = refl

format_int-negsuc : (n : ℕ) → format_int (negsuc n) ≡ b'-' ∷ format_ℕ (suc n)
unfolding format_int
format_int-negsuc n = refl

parse_int-minus : (s : Text) → BeginsDigit s → parse_int (b'-' ∷ s) ≡ in_range true (scan s 0)
unfolding parse_int
parse_int-minus s h = ground (arith, parse_uint_digits s h)

parse_int-format_ℕ : (n : ℕ) → parse_int (format_ℕ n) ≡ in_range false (scan (format_ℕ n) 0)
parse_int-format_ℕ n = parse_int_digits (format_ℕ n) (format_ℕ-BeginsDigit n)

-- ParseInt reads back what FormatInt prints of an int32.
pub parse_int-format_int : (z : ℤ) → FitsInt32 z → parse_int (format_int z) ≡ value z
parse_int-format_int (pos n) h =
    rw (format_int-pos n, parse_int-format_ℕ n, scan-format_ℕ n (omega arith)) (ground arith)
parse_int-format_int (negsuc n) h =
    rw
      (
        format_int-negsuc n,
        parse_int-minus (format_ℕ (suc n)) (format_ℕ-BeginsDigit (suc n)),
        scan-format_ℕ (suc n) (omega arith),
      )
      (ground arith)

-- the four annotations have different names
distinct_names :
    ((ann_ref_count == ann_id) ≡ false)
    × ((ann_ref_count == ann_qsd_id) ≡ false)
    × ((ann_ref_count == ann_backing_image_id) ≡ false)
    × ((ann_backing_image_id == ann_id) ≡ false)
    × ((ann_backing_image_id == ann_qsd_id) ≡ false)
    × ((ann_qsd_id == ann_id) ≡ false)
unfolding text ◌==◌
distinct_names = (refl, refl, refl, refl, refl, refl)

lookup-annotate :
    (k : Text) (m : Metadata) (a : Table Text)
    → lookup k (annotate m a) ≡ (
        if ann_ref_count == k
        then some (format_int m.ref_count)
        else if ann_backing_image_id == k
        then some m.backing_image_id
        else if ann_qsd_id == k
        then some m.qsd_id
        else if ann_id == k
        then some m.id
        else lookup k a)
unfolding annotate
lookup-annotate k m a = simp lookup-insert

-- The metadata that AddMetadata writes into the annotations of a persistent volume, whatever was
-- there before, is what GetVolumes reads from them, but for the node, if the reference count is an
-- int32.
pub parse_annotations-annotate :
    (C : Cluster) (m : Metadata) (a : Table Text) (pv : PersistentVolume)
    → FitsInt32 m.ref_count
    → parse_annotations C (record pv { annotations = some (annotate m a) })
      ≡ inr (record m { node = text "" })
unfolding parse_annotations
parse_annotations-annotate C m a pv h = ground (
  arith,
  lookup-annotate ann_id m a,
  lookup-annotate ann_qsd_id m a,
  lookup-annotate ann_backing_image_id m a,
  lookup-annotate ann_ref_count m a,
  distinct_names,
  parse_int-format_int m.ref_count h,
  ==_refl ann_id,
  ==_refl ann_qsd_id,
  ==_refl ann_backing_image_id,
  ==_refl ann_ref_count,
)
