-- ===== src/Chunking/Markdown.antt =====
-- The Markdown structure that core/memory/chunking.py looks at: headings, fences, tables, and the
-- wrapper of a saved abstract page. A pattern with `(?m)^` is tried where a line begins.
use Prim.Native.String.{String}
use s13code.Prelude.{
  ℕ, zero, suc, ◌+◌, ◌-◌, Bool, true, false, not, ◌&&◌, Option, none, some, List, [], ◌∷◌, eqb, leb,
  ltb, if◌then◌else◌, length,
}
use s13code.Chunking.Text.{
  Text, codes, is_space, drop, slice, lstrip, strip, starts_with, find, rfind,
}

abbrev newline : ℕ
newline = b'\n'

abbrev hash : ℕ
hash = b'#'

abbrev count_while : (ℕ → Bool) → Text → ℕ
count_while p [] = 0
count_while p (c ∷ s) = let n = count_while p s in if p c then suc n else 0

-- What `.+` or `.*` takes: the rest of the line.
abbrev line_of : Text → Text
line_of [] = []
line_of (c ∷ s) = let rest = line_of s in if eqb c newline then [] else c ∷ rest

abbrev last_inline : Text → Option ℕ
last_inline [] = none
last_inline (c ∷ s) = elim (last_inline s) [
  | some i ↦ some (suc i)
  | none ↦ if eqb c newline then none else some 0
]

-- `\s+(.+)$` behind the hashes. Where only spaces are left, the match gives back the last of them
-- that ends no line.
abbrev heading_text : Text → Option (Text × ℕ)
heading_text s =
    let n = count_while is_space s in
    elim (drop n s) [
      | c ∷ rest ↦ let line = line_of (c ∷ rest) in some (line, n + length line)
      | [] ↦ elim (last_inline s) [
        | some (suc i) ↦ some (slice (suc i) (suc (suc i)) s, suc (suc i))
        | some zero ↦ none
        | none ↦ none
      ]
    ]

-- `#{1,6}\s+(.+)$` where a line begins: the group, and the length of the match. Less than all the
-- hashes leave a hash where a space must stand.
unfoldable pub heading_at : Text → Option (Text × ℕ)
heading_at s =
    let k = count_while (λ c. eqb c hash) s in
    if leb 1 k && leb k 6 && leb 1 (count_while is_space (drop k s))
    then elim (heading_text (drop k s)) [ none ↦ none | some (title, n) ↦ some (title, k + n) ]
    else none

abbrev pub heading_length : Bool → Text → ℕ
heading_length true s = elim (heading_at s) [ none ↦ 0 | some (title, n) ↦ n ]
heading_length false s = 0

-- The starts of the matches of `(?m)^#{1,6}\s+.+$`; `skip` characters belong to the last match.
abbrev pub headings_from : ℕ → Bool → ℕ → Text → List ℕ
headings_from i at_line skip [] = []
headings_from i at_line (suc k) (c ∷ s) = headings_from (suc i) (eqb c newline) k s
headings_from i at_line zero (c ∷ s) = elim (heading_length at_line (c ∷ s)) [
  | zero ↦ headings_from (suc i) (eqb c newline) 0 s
  | suc k ↦ i ∷ headings_from (suc i) (eqb c newline) k s
]

unfoldable pub headings : Text → List ℕ
headings s = headings_from 0 true 0 s

-- `re.search` gives the first heading only.
abbrev first_heading : Bool → Text → Option Text
first_heading at_line [] = none
first_heading true (c ∷ s) = elim (heading_at (c ∷ s)) [
  | some (title, n) ↦ some title
  | none ↦ first_heading (eqb c newline) s
]
first_heading false (c ∷ s) = first_heading (eqb c newline) s

unfoldable pub heading : Text → Option Text
heading chunk = elim (first_heading true chunk) [ none ↦ none | some title ↦ some (strip title) ]

-- The starts of the lines on which `here` holds.
abbrev pub lines_from : (Text → Bool) → ℕ → Bool → Text → List ℕ
lines_from here i at_line [] = []
lines_from here i at_line (c ∷ s) =
    let rest = lines_from here (suc i) (eqb c newline) s in
    if at_line && here (c ∷ s) then i ∷ rest else rest

unfoldable pub fences : Text → List ℕ
fences s = lines_from (λ t. starts_with t (codes "```")) 0 true s

abbrev pub last : List ℕ → Option ℕ
last [] = none
last (x ∷ []) = some x
last (x ∷ y ∷ xs) = last (y ∷ xs)

abbrev pub odd : ℕ → Bool
odd zero = false
odd (suc n) = not (odd n)

-- `source.rfind("\n", a, b) + 1`, where no match gives -1 + 1
unfoldable pub line_start : Text → ℕ → ℕ → ℕ
line_start source a b = elim (rfind (newline ∷ []) (slice a b source)) [
  | none ↦ 0
  | some i ↦ a + i + 1
]

unfoldable pub is_row : Text → Bool
is_row line = starts_with (lstrip line) (codes "|")

-- `while table_start > start`, on fuel
unfoldable pub table_from : ℕ → Text → ℕ → ℕ → ℕ
table_from zero source start table_start = table_start
table_from (suc fuel) source start table_start = elim (ltb start table_start) [
  | false ↦ table_start
  | true ↦
      let previous = line_start source start (table_start - 1) in
      elim (is_row (slice previous table_start source)) [
        | false ↦ table_start
        | true ↦ table_from fuel source start previous
      ]
]

unfoldable pub table_end : Text → ℕ → ℕ → ℕ
table_end source start nominal_end =
    let line = line_start source start nominal_end in
    let table_start = table_from line source start line in
    if is_row (slice line nominal_end source) && ltb start table_start
    then table_start
    else nominal_end

unfoldable pub fence_end : Text → ℕ → ℕ → ℕ
fence_end source start nominal_end =
    let found = fences (slice start nominal_end source) in
    elim (last found) [
      | some (suc i) ↦
          if odd (length found) then start + suc i else table_end source start nominal_end
      | some zero ↦ table_end source start nominal_end
      | none ↦ table_end source start nominal_end
    ]

unfoldable pub structural_end : Text → ℕ → ℕ → ℕ
structural_end source start nominal_end = elim (last (headings (slice start nominal_end source))) [
  | some (suc i) ↦ start + suc i
  | some zero ↦ fence_end source start nominal_end
  | none ↦ fence_end source start nominal_end
]

-- `^#\s+Title:`
abbrev is_title : Text → Bool
is_title [] = false
is_title (c ∷ s) =
    let n = count_while is_space s in
    eqb c hash && leb 1 n && starts_with (drop n s) (codes "Title:")

unfoldable pub titles : Text → List ℕ
titles s = lines_from is_title 0 true s

-- `end = min(end, found)` for one marker
unfoldable pub cut_at : Text → ℕ → ℕ → Text → ℕ → ℕ
cut_at markdown abstract_at history_at marker stop =
    elim (find marker (slice abstract_at history_at markdown)) [
      | none ↦ stop
      | some i ↦ if ltb (abstract_at + i) stop then abstract_at + i else stop
    ]

unfoldable pub wrapped : Text → ℕ → ℕ → Text × String
wrapped markdown abstract_at history_at = elim (last (titles (slice 0 abstract_at markdown))) [
  | none ↦ (markdown, "none")
  | some title_at ↦
      let cut = cut_at markdown abstract_at history_at in
      let stop = cut (codes "\n| Subjects:") (cut (codes "\n| Comments:") history_at) in
      (strip (slice title_at stop markdown), "arxiv_abstract_page")
]

unfoldable pub prepare_markdown : Text → Text × String
prepare_markdown markdown = elim (find (codes "> Abstract:") markdown) [
  | none ↦ (markdown, "none")
  | some abstract_at ↦ elim (find (codes "## Submission history") markdown) [
    | none ↦ (markdown, "none")
    | some history_at ↦
        if ltb abstract_at history_at
        then wrapped markdown abstract_at history_at
        else (markdown, "none")
  ]
]

-- `HeadingTopicSegmenter.second_topic`
unfoldable pub second_heading : Text → Text
second_heading block = elim (headings block) [
  | [] ↦ []
  | first ∷ [] ↦ []
  | first ∷ second ∷ rest ↦ strip (drop second block)
]
