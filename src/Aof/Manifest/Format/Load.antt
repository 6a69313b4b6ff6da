-- ===== src/Aof/Manifest/Format/Load.antt =====
-- The state that the lines of a manifest lead to.
use rdb_elasticache_migrator.Prelude.{
  ◌≤◌, ℕ, zero, suc, ◌+◌, ◌<◌, ◌≡◌, refl, ap, ◌∙◌, Bool, false, Option, some, none, List, [], ◌∷◌,
  ◌++◌, length, append_assoc, append-nil, arith, codes,
}
use rdb_elasticache_migrator.Prelude.Int.{ℤ, pos, leb_ℤ}
use rdb_elasticache_migrator.Runtime.{Bytes, Result, ok, panic}
use rdb_elasticache_migrator.Runtime.Outcome.{◌>>=◌}
use rdb_elasticache_migrator.Runtime.Strings.{equal, contains_text}
use rdb_elasticache_migrator.Runtime.Emit.{Each}
use rdb_elasticache_migrator.Runtime.Decimal.{Each-append}
use rdb_elasticache_migrator.Aof.Manifest.Quoted.{written, written-Without}
use rdb_elasticache_migrator.Aof.Manifest.{
  true, AofInfo, AofManifest, new_manifest, Loading, info_line, add_info, at_eof,
  load_manifest_lines,
}
use rdb_elasticache_migrator.Aof.Manifest.Format.Line.{
  IsInfo, TellsKeys, parse_line-info_line, read_until_newline-info_line,
}

abbrev pub empty_loading : Loading
empty_loading = record { am = new_manifest; max_seq = pos 0 }

module _ (is_print : ℕ → Bool) (prints : (c : ℕ) → 32 ≤ c → c < 127 → is_print c ≡ true) where
  abbrev pub text : List AofInfo → Bytes
  text [] = []
  text (ai ∷ ais) = info_line (written is_print prints ai.file_name) ai ++ text ais

-- The last sequence number of a list, or the one before it.
abbrev pub last_seq : ℤ → List AofInfo → ℤ
last_seq z [] = z
last_seq z (ai ∷ ais) = last_seq ai.file_seq ais

abbrev pub IsHistory : AofInfo → Type 0
IsHistory ai =
    IsInfo ai
    × (ai.aof_file_type ≡ codes "h")
    × (contains_text ai.file_name (codes "base.rdb") ≡ false)

-- Incremental files with sequence numbers that rise from `z`.
pub data IsRising : ℤ → List AofInfo → Type 0 where
  no_more : {z : ℤ} → IsRising z []
  rise :
      {z : ℤ} {ai : AofInfo} {ais : List AofInfo}
      → IsInfo ai
      → ai.aof_file_type ≡ codes "i"
      → leb_ℤ ai.file_seq z ≡ false
      → IsRising ai.file_seq ais
      → IsRising z (ai ∷ ais)

-- The base file with the number that the manifest keeps of it.
pub data IsBase : Option AofInfo → ℤ → Type 0 where
  no_base : IsBase none (pos 0)
  one_base :
      {ai : AofInfo} → IsInfo ai → ai.aof_file_type ≡ codes "b" → IsBase (some ai) ai.file_seq

abbrev pub base_files : Option AofInfo → List AofInfo
base_files none = []
base_files (some ai) = ai ∷ []

abbrev pub files : AofManifest → List AofInfo
files am = base_files am.base_aof_info ++ am.history_list ++ am.incr_aof_list

pub record IsManifest (am : AofManifest) : Type 0 where
  pub base : IsBase am.base_aof_info am.curr_base_file_seq
  pub history : Each IsHistory am.history_list
  pub incr : IsRising (pos 0) am.incr_aof_list
  pub last : am.curr_incr_file_seq ≡ last_seq (pos 0) am.incr_aof_list
  pub not_empty : 0 < length (files am)

pub add_all : List AofInfo → Loading → Result Loading
add_all [] s = ok s
add_all (ai ∷ ais) s = add_info ai s >>= add_all ais

module _ (is_print : ℕ → Bool) (prints : (c : ℕ) → 32 ≤ c → c < 127 → is_print c ≡ true)
    (equal_fold : Bytes → Bytes → Bool) (keys : TellsKeys equal_fold) where
  pub load_manifest_lines-text :
      (fuel n : ℕ) (s : Loading) (ais : List AofInfo)
      → Each IsInfo ais
      → length ais < fuel
      → load_manifest_lines equal_fold fuel n s (text is_print prints ais)
        ≡ (add_all ais s >>= λ s'. at_eof s' (n + length ais))
  unfolding load_manifest_lines add_all
  load_manifest_lines-text zero n s ais all h = absurd (omega arith)
  load_manifest_lines-text (suc fuel) n s [] all h = ap (at_eof s) (omega arith)
  load_manifest_lines-text (suc fuel) n s (ai ∷ ais) (i, all) h =
      rw
        (
          read_until_newline-info_line (written is_print prints ai.file_name) ai
              (text is_print prints ais)
              (written-Without is_print prints ai.file_name i.name_letters) i,
          parse_line-info_line equal_fold keys is_print prints ai i,
        )
        (after (add_info ai s)
          (λ s'. load_manifest_lines-text fuel (suc n) s' ais all (omega arith)))
    where
      after :
          (r : Result Loading)
          → ((s' : Loading)
              → load_manifest_lines equal_fold fuel (suc n) s' (text is_print prints ais)
                ≡ (add_all ais s' >>= λ s''. at_eof s'' (suc n + length ais)))
          → (r >>= λ s'. load_manifest_lines equal_fold fuel (suc n) s' (text is_print prints ais))
            ≡ ((r >>= add_all ais) >>= λ s'. at_eof s' (n + length (ai ∷ ais)))
      after (panic e) f = refl
      after (ok s') f = f s' ∙ ap (λ k. add_all ais s' >>= λ s''. at_eof s'' k) (omega arith)

abbrev with_history : Loading → List AofInfo → Loading
with_history s hs = record s { am = record s.am { history_list = s.am.history_list ++ hs } }

kind_is : (t k : Bytes) → t ≡ k → (k' : Bytes) → equal t k' ≡ equal k k'
kind_is t k e k' = ap (λ x. equal x k') e

history_step :
    (ai : AofInfo) (s : Loading)
    → ai.aof_file_type ≡ codes "h"
    → contains_text ai.file_name (codes "base.rdb") ≡ false
    → add_info ai s ≡ ok (with_history s (ai ∷ []))
unfolding add_info
history_step ai s t n =
    rw
      (
        kind_is ai.aof_file_type (codes "h") t (codes "b"),
        kind_is ai.aof_file_type (codes "h") t (codes "h"),
        n,
      )
      (unfold equal in refl)

add_history :
    (hs : List AofInfo) (s : Loading) → Each IsHistory hs → add_all hs s ≡ ok (with_history s hs)
unfolding add_all
add_history [] s all = rw (append-nil) refl
add_history (ai ∷ hs) s ((i, t, n), all) =
    rw
      (
        history_step ai s t n,
        add_history hs (with_history s (ai ∷ [])) all,
        append_assoc s.am.history_list (ai ∷ []) hs,
      )
      refl

abbrev with_incr : Loading → ℤ → List AofInfo → Loading
with_incr s last ais = record {
  am = record s.am { incr_aof_list = s.am.incr_aof_list ++ ais; curr_incr_file_seq = last };
  max_seq = last;
}

incr_step :
    (ai : AofInfo) (s : Loading)
    → ai.aof_file_type ≡ codes "i"
    → leb_ℤ ai.file_seq s.max_seq ≡ false
    → add_info ai s ≡ ok (with_incr s ai.file_seq (ai ∷ []))
unfolding add_info
incr_step ai s t up =
    rw
      (
        kind_is ai.aof_file_type (codes "i") t (codes "b"),
        kind_is ai.aof_file_type (codes "i") t (codes "h"),
        kind_is ai.aof_file_type (codes "i") t (codes "i"),
        up,
      )
      (unfold equal in refl)

add_incr :
    (ais : List AofInfo) (s : Loading)
    → s.am.curr_incr_file_seq ≡ s.max_seq
    → IsRising s.max_seq ais
    → add_all ais s ≡ ok (with_incr s (last_seq s.max_seq ais) ais)
unfolding add_all
add_incr [] s e h = rw (append-nil, ← e) refl
add_incr (ai ∷ ais) s e (rise i t up h) =
    rw
      (
        incr_step ai s t up,
        add_incr ais (with_incr s ai.file_seq (ai ∷ [])) refl h,
        append_assoc s.am.incr_aof_list (ai ∷ []) ais,
      )
      refl

base_step :
    (ai : AofInfo)
    → ai.aof_file_type ≡ codes "b"
    → add_info ai empty_loading
      ≡ ok (record empty_loading {
        am = record new_manifest { base_aof_info = some ai; curr_base_file_seq = ai.file_seq };
      })
unfolding add_info
base_step ai t = rw (kind_is ai.aof_file_type (codes "b") t (codes "b")) (unfold equal in refl)

add_all-append :
    (xs ys : List AofInfo) (s s' : Loading)
    → add_all xs s ≡ ok s'
    → add_all (xs ++ ys) s ≡ add_all ys s'
unfolding add_all
add_all-append [] ys s s' h = ground arith
add_all-append (x ∷ xs) ys s s' h = first (add_info x s) h (λ t f. add_all-append xs ys t s' f)
  where
    first :
        (r : Result Loading)
        → (r >>= add_all xs) ≡ ok s'
        → ((t : Loading) → add_all xs t ≡ ok s' → add_all (xs ++ ys) t ≡ add_all ys s')
        → (r >>= add_all (xs ++ ys)) ≡ add_all ys s'
    first (ok t) e f = f t e
    first (panic g) e f = cc

abbrev of_base : Option AofInfo → ℤ → Loading
of_base base seq = record empty_loading {
  am = record new_manifest { base_aof_info = base; curr_base_file_seq = seq };
}

add_base_files :
    (base : Option AofInfo) (seq : ℤ)
    → IsBase base seq
    → add_all (base_files base) empty_loading ≡ ok (of_base base seq)
unfolding add_all
add_base_files none seq no_base = refl
add_base_files (some ai) seq (one_base i t) = rw (base_step ai t) refl

pub IsInfo-base_files :
    (base : Option AofInfo) (seq : ℤ) → IsBase base seq → Each IsInfo (base_files base)
IsInfo-base_files none seq no_base = tt
IsInfo-base_files (some ai) seq (one_base i t) = (i, tt)

pub IsInfo-history : (hs : List AofInfo) → Each IsHistory hs → Each IsInfo hs
IsInfo-history [] h = tt
IsInfo-history (ai ∷ hs) ((i, t, n), h) = (i, IsInfo-history hs h)

pub IsInfo-incr : (z : ℤ) (ais : List AofInfo) → IsRising z ais → Each IsInfo ais
IsInfo-incr z [] h = tt
IsInfo-incr z (ai ∷ ais) (rise i t up h) = (i, IsInfo-incr ai.file_seq ais h)

pub files-IsInfo : (am : AofManifest) → IsManifest am → Each IsInfo (files am)
files-IsInfo am h =
    Each-append IsInfo (base_files am.base_aof_info ++ am.history_list) am.incr_aof_list
      (Each-append IsInfo (base_files am.base_aof_info) am.history_list
        (IsInfo-base_files am.base_aof_info am.curr_base_file_seq h.base)
        (IsInfo-history am.history_list h.history))
      (IsInfo-incr (pos 0) am.incr_aof_list h.incr)

pub add_files :
    (am : AofManifest)
    → IsManifest am
    → add_all (files am) empty_loading
      ≡ ok (record { am = am; max_seq = last_seq (pos 0) am.incr_aof_list })
add_files am h =
    let base = of_base am.base_aof_info am.curr_base_file_seq in
    let front =
      add_all-append (base_files am.base_aof_info) am.history_list empty_loading base
        (add_base_files am.base_aof_info am.curr_base_file_seq h.base)
      ∙ add_history am.history_list base h.history in
    add_all-append (base_files am.base_aof_info ++ am.history_list) am.incr_aof_list empty_loading
      (with_history base am.history_list) front
    ∙ add_incr am.incr_aof_list (with_history base am.history_list) refl h.incr
    ∙ rw (← h.last) refl
