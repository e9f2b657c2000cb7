-- ===== src/Core/Clip/Format.antt =====
-- `ClipFormat` and `ClipKind` of crates/clipse-core/src/clip.rs. Labels are byte strings.
use clipse.Prelude.{
  ℕ, ◌≡◌, refl, sym, ◌∙◌, inl, inr, false, List, [], ◌∷◌, All, if◌then◌else◌, Bool-cases,
}
use clipse.Prelude.Bytes.{Bytes, ascii, bytes_eq, bytes_eq→eq}

pub data ClipFormat : Type 0 where
  text html rtf png jpeg svg file_list : ClipFormat
  other : Bytes → ClipFormat

pub data ClipKind : Type 0 where
  text_kind html_kind rtf_kind image_kind files_kind other_kind : ClipKind

-- `ClipFormat::label`.
unfoldable pub label : ClipFormat → Bytes
label text = ascii "text/plain"
label html = ascii "text/html"
label rtf = ascii "application/rtf"
label png = ascii "image/png"
label jpeg = ascii "image/jpeg"
label svg = ascii "image/svg+xml"
label file_list = ascii "application/x-clipse-filelist"
label (other s) = s

-- `ClipFormat::from_label`.
unfoldable pub from_label : Bytes → ClipFormat
from_label s =
    if bytes_eq s (ascii "text/plain")
    then text
    else if bytes_eq s (ascii "text/html")
    then html
    else if bytes_eq s (ascii "application/rtf")
    then rtf
    else if bytes_eq s (ascii "image/png")
    then png
    else if bytes_eq s (ascii "image/jpeg")
    then jpeg
    else if bytes_eq s (ascii "image/svg+xml")
    then svg
    else if bytes_eq s (ascii "application/x-clipse-filelist")
    then file_list
    else other s

-- `ClipFormat::kind`.
unfoldable pub kind : ClipFormat → ClipKind
kind text = text_kind
kind html = html_kind
kind rtf = rtf_kind
kind png = image_kind
kind jpeg = image_kind
kind svg = image_kind
kind file_list = files_kind
kind (other s) = other_kind

-- `ClipFormat::display_rank`.
unfoldable pub display_rank : ClipFormat → ℕ
display_rank file_list = 5
display_rank png = 4
display_rank jpeg = 4
display_rank svg = 4
display_rank html = 3
display_rank rtf = 2
display_rank text = 1
display_rank (other s) = 0

-- `ClipKind::as_str`.
unfoldable pub as_str : ClipKind → Bytes
as_str text_kind = ascii "text"
as_str html_kind = ascii "html"
as_str rtf_kind = ascii "rtf"
as_str image_kind = ascii "image"
as_str files_kind = ascii "files"
as_str other_kind = ascii "other"

-- The labels of the formats that have a constructor of their own.
abbrev pub known_labels : List Bytes
known_labels =
    ascii "text/plain"
    ∷ ascii "text/html"
    ∷ ascii "application/rtf"
    ∷ ascii "image/png"
    ∷ ascii "image/jpeg"
    ∷ ascii "image/svg+xml"
    ∷ ascii "application/x-clipse-filelist"
    ∷ []

-- `Other` is for labels that no constructor stands for.
abbrev pub IsCanonical : ClipFormat → Type 0
IsCanonical (other s) = All (λ l. bytes_eq s l ≡ false) known_labels
IsCanonical _ = Unit

-- One test of the ladder.
label_if :
    (s l : Bytes) (f g : ClipFormat)
    → label f ≡ l
    → label g ≡ s
    → label (if bytes_eq s l then f else g) ≡ s
label_if s l f g hf hg = elim (Bool-cases (bytes_eq s l)) [
  | inl e ↦ rw e (hf ∙ sym (bytes_eq→eq s l e))
  | inr e ↦ rw e hg
]

label-from_label : (s : Bytes) → label (from_label s) ≡ s
unfolding label from_label
label-from_label s = label_if s _ text _ refl (
    label_if s _ html _ refl (
      label_if s _ rtf _ refl (
        label_if s _ png _ refl (
          label_if s _ jpeg _ refl
            (label_if s _ svg _ refl (label_if s _ file_list _ refl refl))))))

pub from_label-label : (f : ClipFormat) → IsCanonical f → from_label (label f) ≡ f
unfolding label from_label bytes_eq
from_label-label text h = refl
from_label-label html h = refl
from_label-label rtf h = refl
from_label-label png h = refl
from_label-label jpeg h = refl
from_label-label svg h = refl
from_label-label file_list h = refl
from_label-label (other s) h =
    rw (h.0, h.1.0, h.1.1.0, h.1.1.1.0, h.1.1.1.1.0, h.1.1.1.1.1.0, h.1.1.1.1.1.1.0)

-- Labels and formats correspond: every string is the label of the format that it is read as, and
-- a format is read back from its label, if no `Other` carries the label of a known format.
pub label_roundtrip :
    (s : Bytes) (f : ClipFormat)
    → IsCanonical f
    → (label (from_label s) ≡ s) × (from_label (label f) ≡ f)
label_roundtrip s f h = (label-from_label s, from_label-label f h)
