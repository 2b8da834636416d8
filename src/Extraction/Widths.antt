-- ===== src/Extraction/Widths.antt =====
-- ingestion/extraction.py: splitting, stripping and joining lines makes no text longer.
use multi_agent_ai_analyst.Prelude.{
  ℕ, ◌+◌, ◌-◌, max, ◌≤◌, ◌≡◌, List, [], ◌∷◌, ◌++◌, map, filter, length, length-append, arith,
}
use multi_agent_ai_analyst.Prelude.Text.{
  Text, codes, strip, length-strip, splitlines, onto_line, join,
}
use multi_agent_ai_analyst.Extraction.Budget.{width}
use multi_agent_ai_analyst.Extraction.{is_text}

pub width-append : (xs ys : List Text) → width (xs ++ ys) ≡ width xs + width ys
width-append [] ys = omega arith
width-append (x ∷ xs) ys = ground (arith, width-append xs ys)

pub width-onto_line :
    (c : ℕ) (lines : List Text) → width (onto_line c lines) ≤ max 2 (width lines + 1)
unfolding onto_line
width-onto_line c [] = omega arith
width-onto_line c (line ∷ lines) = omega arith

pub width-splitlines : (t : Text) → width (splitlines t) ≤ length t + 1
unfolding splitlines
width-splitlines [] = omega arith
width-splitlines (c ∷ t) = ground (arith, width-splitlines t, width-onto_line c (splitlines t))

pub width-filter : (lines : List Text) → width (filter is_text (map strip lines)) ≤ width lines
unfolding filter is_text
width-filter [] = omega arith
width-filter (line ∷ lines) = ground (arith, width-filter lines, length-strip line)

pub length-join : (parts : List Text) → length (join (codes "\n") parts) ≤ width parts - 1
unfolding join
length-join [] = omega arith
length-join (part ∷ []) = omega arith
length-join (part ∷ next ∷ parts) = omega (
  arith,
  length-append part (codes "\n" ++ join (codes "\n") (next ∷ parts)),
  length-join (next ∷ parts),
)
