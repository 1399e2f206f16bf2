-- ===== src/Server/Files/Types.antt =====
-- The content type of a path is that of its last suffix.
use dbslayer.Prelude.{
  ℕ, zero, suc, ◌≡◌, ◌<◌, refl, sym, ap, subst, ◌∙◌, Bool, true, not, ◌&&◌, List, [], ◌∷◌, ◌++◌,
  Bytes, codes, bytes_eq, bytes_eq_iff, map, length, drop, get_or, none, some, ◌==◌, if◌then◌else◌,
  arith,
}
use dbslayer.Server.Files.{
  to_lower, same_letters, mtypes, last_dot, dot_from, find_type, type_of_end, content_type_of,
}

-- the search in the table, for letters that are small already
unfoldable find_lowered : List (Bytes × Bytes) → Bytes → Bytes
unfolding bytes_eq
find_lowered [] end = codes "text/plain"
find_lowered ((suffix, mtype) ∷ types) end =
    let other = find_lowered types end in
    if bytes_eq end (map to_lower suffix) then mtype else other

find_type_lem :
    (types : List (Bytes × Bytes)) (end : Bytes)
    → find_type types end ≡ find_lowered types (map to_lower end)
unfolding find_type same_letters find_lowered
find_type_lem [] end = refl
find_type_lem ((suffix, mtype) ∷ types) end =
    ap (λ other. if bytes_eq (map to_lower end) (map to_lower suffix) then mtype else other)
      (find_type_lem types end)

abbrev no_dots : Bytes → Bool
no_dots [] = true
no_dots (c ∷ text) = not (c == b'.') && no_dots text

last_dot-none : (text : Bytes) → no_dots (map to_lower text) ≡ true → last_dot text ≡ none
last_dot-none [] h = refl
last_dot-none (c ∷ text) h =
    ap (dot_from c text) (last_dot-none text (ground (arith, h))) ∙ ground (arith, h)

last_dot_lem :
    (stem end suffix : Bytes)
    → map to_lower end ≡ b'.' ∷ suffix
    → no_dots suffix ≡ true
    → last_dot (stem ++ end) ≡ some end
last_dot_lem [] [] suffix e h = absurd (omega (arith, ap length e))
last_dot_lem [] (c ∷ end) suffix e h =
    ap (dot_from c end) (last_dot-none end (subst (λ l. no_dots l ≡ true) (sym (ap (drop 1) e)) h))
    ∙ dot_lem c end (ap (λ l. get_or l 0 0) e)
  where
    dot_lem : (c : ℕ) (end : Bytes) → to_lower c ≡ b'.' → dot_from c end none ≡ some (c ∷ end)
    dot_lem c end e = ground (arith, e)
last_dot_lem (s ∷ stem) end suffix e h =
    ap (dot_from s (stem ++ end)) (last_dot_lem stem end suffix e h)

suffix_lem :
    (stem end suffix : Bytes)
    → map to_lower end ≡ b'.' ∷ suffix
    → no_dots suffix ≡ true
    → content_type_of (stem ++ end) ≡ find_lowered mtypes (b'.' ∷ suffix)
suffix_lem stem end suffix e h =
    ap type_of_end (last_dot_lem stem end suffix e h)
    ∙ find_type_lem mtypes end
    ∙ ap (find_lowered mtypes) e

letters_lem : (a b : Bytes) → same_letters a b ≡ true → map to_lower a ≡ map to_lower b
unfolding same_letters
letters_lem a b h = (bytes_eq_iff (map to_lower a) (map to_lower b)).0 h

-- A path that ends in one of the six suffixes of the table, in small or capital letters, gets the
-- type of that suffix, whatever dots stand before it.
pub content_type_of-append :
    (k : ℕ) (stem end : Bytes)
    → k < 6
    → same_letters end (get_or mtypes k ([], [])).0 ≡ true
    → content_type_of (stem ++ end) ≡ (get_or mtypes k ([], [])).1
unfolding bytes_eq find_lowered
content_type_of-append zero stem end k h =
    suffix_lem stem end (codes "html") (letters_lem end _ h) refl
content_type_of-append (suc zero) stem end k h =
    suffix_lem stem end (codes "png") (letters_lem end _ h) refl
content_type_of-append (suc (suc zero)) stem end k h =
    suffix_lem stem end (codes "gif") (letters_lem end _ h) refl
content_type_of-append (suc (suc (suc zero))) stem end k h =
    suffix_lem stem end (codes "jpg") (letters_lem end _ h) refl
content_type_of-append (suc (suc (suc (suc zero)))) stem end k h =
    suffix_lem stem end (codes "xml") (letters_lem end _ h) refl
content_type_of-append (suc (suc (suc (suc (suc zero))))) stem end k h =
    suffix_lem stem end (codes "xsl") (letters_lem end _ h) refl
content_type_of-append (suc (suc (suc (suc (suc (suc k)))))) stem end h _ =
    absurd (omega (arith, h))
