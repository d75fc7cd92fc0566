-- ===== src/Driver/Names/Flags.antt =====
-- The texts of the flags rw_type and access_mode.
use hlfs.Common.{ℕ, ◌≡◌, refl, sym, ◌↔◌, ◌∙◌, ap, Bool, true, List, [], ◌∷◌, arith}
use hlfs.AepStudy.Pmem.{RwType, read, write, cpy, memset}
use hlfs.Driver.{AccessMode, seq, random}
use hlfs.Driver.Names.{
  same_text, find, rw_type_2_str, access_mode_2_str, str2_rw_type, str2_access_mode,
  validate_rw_type, validate_access_mode,
}

pub same_text-eq : (s t : List ℕ) → same_text s t ≡ true → s ≡ t
unfolding same_text
same_text-eq [] [] e = refl
same_text-eq [] (b ∷ t) e = ground (arith, e)
same_text-eq (a ∷ s) [] e = ground (arith, e)
same_text-eq (a ∷ s) (b ∷ t) e = ground (arith, e, same_text-eq s t)

pub same_text_self : (s : List ℕ) → same_text s s ≡ true
unfolding same_text
same_text_self [] = refl
same_text_self (a ∷ s) = ground (arith, same_text_self s)

accepted_rw_type :
    (value : List ℕ) → validate_rw_type value ≡ same_text value (rw_type_2_str (str2_rw_type value))
unfolding find validate_rw_type str2_rw_type rw_type_2_str
accepted_rw_type value = ground arith

accepted_access_mode :
    (value : List ℕ)
    → validate_access_mode value ≡ same_text value (access_mode_2_str (str2_access_mode value))
unfolding find validate_access_mode str2_access_mode access_mode_2_str
accepted_access_mode value = ground arith

read_back : (t : RwType) → str2_rw_type (rw_type_2_str t) ≡ t
unfolding find str2_rw_type rw_type_2_str same_text
read_back read = refl
read_back write = refl
read_back cpy = refl
read_back memset = refl

same_text_iff : {b : Bool} (s t : List ℕ) → b ≡ same_text s t → (b ≡ true) ↔ (t ≡ s)
same_text_iff s t e = (
  λ ok. sym (same_text-eq s t (sym e ∙ ok)),
  λ same. e ∙ ap (same_text s) same ∙ same_text_self s,
)

-- ValidateRwType accepts a text exactly if it is the one that RwType2Str gives for what Str2RwType
-- makes of it, and each kind is read back from its text.
pub validate_rw_type-rw_type_2_str :
    (value : List ℕ) (t : RwType)
    → ((validate_rw_type value ≡ true) ↔ (rw_type_2_str (str2_rw_type value) ≡ value))
      × (str2_rw_type (rw_type_2_str t) ≡ t)
validate_rw_type-rw_type_2_str value t =
    (same_text_iff value _ (accepted_rw_type value), read_back t)

mode_read_back : (m : AccessMode) → str2_access_mode (access_mode_2_str m) ≡ m
unfolding find str2_access_mode access_mode_2_str same_text
mode_read_back seq = refl
mode_read_back random = refl

pub validate_access_mode-access_mode_2_str :
    (value : List ℕ) (m : AccessMode)
    → ((validate_access_mode value ≡ true) ↔ (access_mode_2_str (str2_access_mode value) ≡ value))
      × (str2_access_mode (access_mode_2_str m) ≡ m)
validate_access_mode-access_mode_2_str value m =
    (same_text_iff value _ (accepted_access_mode value), mode_read_back m)
