-- ===== src/Main/Tags.antt =====
-- cli.rs: the tags that come back from a list with commas.
use vigil_collector.Prelude.{
  ◌≡◌, refl, ap, ◌∙◌, false, some, List, [], ◌∷◌, ◌++◌, map, arith, ◌==◌, All, All-append,
}
use vigil_collector.Text.{Text, codes, is_empty, is_whitespace, trim, split_from, split, join}
use mathlib.Core.List.{append-nil, append_assoc, reverse}
use vigil_collector.Text.Trim.{IsBlank, StartsSolid, trim-blanks, trim-blank}
use vigil_collector.Main.{Cli, keep_tags, parse_tags}

-- What stands between two commas: a tag with blanks around it, or blanks alone.
pub data Entry : Type 0 where
  tag : Text → Text → Text → Entry
  blank : Text → Entry

abbrev pub written : Entry → Text
written (tag before t after) = before ++ (t ++ after)
written (blank b) = b

abbrev pub tags_of : List Entry → List Text
tags_of [] = []
tags_of (tag before t after ∷ es) = t ∷ tags_of es
tags_of (blank b ∷ es) = tags_of es

abbrev HasNoComma : Text → Type 0
HasNoComma s = All (λ c. (c == b',') ≡ false) s

-- A tag has no comma, and no blank at its ends.
abbrev pub IsEntry : Entry → Type 0
IsEntry (tag before t after) =
    IsBlank before × IsBlank after × StartsSolid t × StartsSolid (reverse t) × HasNoComma t
IsEntry (blank b) = IsBlank b

blank-HasNoComma : (b : Text) → IsBlank b → HasNoComma b
unfolding is_whitespace
blank-HasNoComma [] h = tt
blank-HasNoComma (c ∷ b) (hc, h) = (ground arith, blank-HasNoComma b h)

written-HasNoComma : (e : Entry) → IsEntry e → HasNoComma (written e)
written-HasNoComma (tag before t after) (hb, ha, first, last, plain) =
    All-append _ before (t ++ after) (blank-HasNoComma before hb)
      (All-append _ t after plain (blank-HasNoComma after ha))
written-HasNoComma (blank b) h = blank-HasNoComma b h

split_last :
    (t cur : Text) → All (λ c. (c == b',') ≡ false) t → split_from b',' cur t ≡ (cur ++ t) ∷ []
unfolding split_from
split_last [] cur h = rw append-nil
split_last (c ∷ t) cur (hc, h) =
    rw (hc, split_from) (split_last t (cur ++ c ∷ []) h ∙ rw append_assoc)

split_first :
    (t cur rest : Text)
    → All (λ c. (c == b',') ≡ false) t
    → split_from b',' cur (t ++ (b',' ∷ rest)) ≡ (cur ++ t) ∷ split_from b',' [] rest
unfolding split_from
split_first [] cur rest h = rw append-nil
split_first (c ∷ t) cur rest (hc, h) =
    rw (hc, split_from) (split_first t (cur ++ c ∷ []) rest h ∙ rw append_assoc)

split-join :
    (e : Entry) (es : List Entry)
    → All IsEntry (e ∷ es)
    → split b',' (join (codes ",") (map written (e ∷ es))) ≡ map written (e ∷ es)
unfolding join
split-join e [] (h, hs) = split_last (written e) [] (written-HasNoComma e h)
split-join e (e' ∷ es) (h, hs) =
    split_first (written e) [] _ (written-HasNoComma e h)
    ∙ ap (λ xs. written e ∷ xs) (split-join e' es hs)

-- One text in `keep_tags`, of which the trimmed form is known.
keep_tags-tag :
    (s t : Text) (more : List Text)
    → trim s ≡ t
    → is_empty t ≡ false
    → keep_tags (s ∷ more) ≡ t ∷ keep_tags more
unfolding keep_tags
keep_tags-tag s t more h n = rw (h, n)

keep_tags-blank :
    (s : Text) (more : List Text) → trim s ≡ [] → keep_tags (s ∷ more) ≡ keep_tags more
unfolding keep_tags
keep_tags-blank s more h = rw h

solid_named : (t : Text) → StartsSolid t → is_empty t ≡ false
solid_named [] h = absurd h
solid_named (c ∷ t) h = refl

keep_tags-written : (es : List Entry) → All IsEntry es → keep_tags (map written es) ≡ tags_of es
keep_tags-written [] h = unfold keep_tags in refl
keep_tags-written (tag before t after ∷ es) ((hb, ha, first, last, plain), hs) =
    keep_tags-tag (before ++ (t ++ after)) t (map written es)
      (trim-blanks before t after hb ha first last) (solid_named t first)
    ∙ ap (λ ts. t ∷ ts) (keep_tags-written es hs)
keep_tags-written (blank b ∷ es) (h, hs) =
    keep_tags-blank b (map written es) (trim-blank b h) ∙ keep_tags-written es hs

-- From a list with commas between its entries, each a tag with blanks around it or blanks alone, the tags
-- are read back in their order, without the blanks.
pub parse_tags-join :
    (cli : Cli) (es : List Entry)
    → All IsEntry es
    → parse_tags (record cli { hub_tags = some (join (codes ",") (map written es)) }) ≡ tags_of es
unfolding parse_tags join
parse_tags-join cli [] h = unfold keep_tags in refl
parse_tags-join cli (e ∷ es) h = ap keep_tags (split-join e es h) ∙ keep_tags-written (e ∷ es) h
