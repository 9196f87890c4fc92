-- ===== src/Command/Help/Layout.antt =====
-- command/help.go: widths, wrapping and indenting.
use routercli.Base.{
  ℕ, zero, suc, ◌+◌, ◌-◌, ◌*◌, ◌/◌, ◌&&◌, List, [], ◌∷◌, ◌++◌, ltb, ◌==◌, if◌then◌else◌, length,
  Text, codes, text_eq, is_space,
}

abbrev pub spaces : ℕ → Text
spaces zero = []
spaces (suc n) = b' ' ∷ spaces n

-- `effectiveManPageWidth`.
unfoldable pub effective_man_page_width : ℕ → ℕ
effective_man_page_width width = if ltb width 40 then 80 else width

-- `bodyWidth`; an indent wider than the page leaves less than the least width.
unfoldable pub body_width : ℕ → Text → ℕ
unfolding effective_man_page_width
body_width width indent =
    let inner = effective_man_page_width width - length indent in if ltb inner 20 then 20 else inner

-- `strings.Fields`, with the word that is being read.
abbrev pub flush : Text → List Text → List Text
flush [] words = words
flush (r ∷ word) words = (r ∷ word) ∷ words

unfoldable pub fields_from : Text → Text → List Text
fields_from word [] = flush word []
fields_from word (r ∷ s) =
    let cut = fields_from [] s in
    let go_on = fields_from (word ++ r ∷ []) s in if is_space r then flush word cut else go_on

unfoldable pub fields : Text → List Text
unfolding fields_from
fields s = fields_from [] s

-- The loop of `wrapText`, by the last line and the words that are left.
unfoldable pub wrap_from : ℕ → Text → List Text → List Text
wrap_from width last [] = last ∷ []
wrap_from width last (word ∷ words) =
    let cut = wrap_from width word words in
    let go_on = wrap_from width (last ++ (b' ' ∷ word)) words in
    if ltb width (length last + 1 + length word) then last ∷ cut else go_on

abbrev pub wrap_words : ℕ → List Text → List Text
wrap_words width [] = []
wrap_words width (word ∷ words) = wrap_from width word words

-- `wrapText`.
unfoldable pub wrap_text : Text → ℕ → List Text
unfolding fields wrap_from
wrap_text text width = wrap_words width (fields text)

-- A line with its newline.
abbrev pub println : Text → Text
println s = s ++ b'\n' ∷ []

abbrev pub indented : Text → List Text → Text
indented indent [] = []
indented indent (line ∷ lines) = println (indent ++ line) ++ indented indent lines

-- `wrapAndIndent`.
unfoldable pub wrap_and_indent : Text → Text → ℕ → Text
unfolding wrap_text body_width
wrap_and_indent text indent width = indented indent (wrap_text text (body_width width indent))

-- `strings.TrimRight(body, "\n")`.
abbrev pub trim_newlines : Text → Text
trim_newlines [] = []
trim_newlines (r ∷ s) =
    let rest = trim_newlines s in if r == b'\n' && text_eq rest [] then [] else r ∷ rest

abbrev pub push_first : ℕ → List Text → List Text
push_first r [] = (r ∷ []) ∷ []
push_first r (w ∷ ws) = (r ∷ w) ∷ ws

-- `strings.Split(body, "\n")`.
unfoldable pub split_newlines : Text → List Text
split_newlines [] = [] ∷ []
split_newlines (r ∷ s) =
    let rest = split_newlines s in if r == b'\n' then [] ∷ rest else push_first r rest

-- `strings.Split(body, "\n\n")`.
unfoldable pub split_paragraphs : Text → List Text
split_paragraphs [] = [] ∷ []
split_paragraphs (r ∷ []) = (r ∷ []) ∷ []
split_paragraphs (r ∷ q ∷ s) =
    let rest = split_paragraphs s in
    let others = split_paragraphs (q ∷ s) in
    if r == b'\n' && q == b'\n' then [] ∷ rest else push_first r others

abbrev pub more_paragraphs : Text → ℕ → List Text → Text
more_paragraphs indent width [] = []
more_paragraphs indent width (p ∷ ps) =
    println [] ++ (wrap_and_indent p indent width ++ more_paragraphs indent width ps)

abbrev pub paragraphs : Text → ℕ → List Text → Text
paragraphs indent width [] = []
paragraphs indent width (p ∷ ps) = wrap_and_indent p indent width ++ more_paragraphs indent width ps

-- `wrapAndIndentParagraphs`.
unfoldable pub wrap_and_indent_paragraphs : Text → Text → ℕ → Text
unfolding split_paragraphs wrap_and_indent
wrap_and_indent_paragraphs body indent width =
    paragraphs indent width (split_paragraphs (trim_newlines body))

abbrev pub indent_lines : Text → List Text → Text
indent_lines indent [] = []
indent_lines indent (line ∷ lines) =
    (if text_eq line [] then println [] else println (indent ++ line)) ++ indent_lines indent lines

-- `indentManBody`.
unfoldable pub indent_man_body : Text → Text → Text
unfolding split_newlines
indent_man_body body indent = indent_lines indent (split_newlines (trim_newlines body))

-- `buildManPageHeader`.
unfoldable pub build_man_page_header : (Text → Text) → Text → Text → ℕ → Text
unfolding effective_man_page_width
build_man_page_header to_upper name product_name width =
    let product = if text_eq product_name [] then codes "RouterCLI" else product_name in
    let upper = to_upper name in
    let title = product ++ codes " Help Information" in
    let pad = effective_man_page_width width - (length upper * 2 + length title) in
    let left_pad = pad / 2 in
    if ltb pad 2
    then upper ++ (codes " " ++ (title ++ (codes " " ++ upper)))
    else upper ++ (spaces left_pad ++ (title ++ (spaces (pad - left_pad) ++ upper)))

-- `%-*s`.
abbrev pub pad_right : ℕ → Text → Text
pad_right width s = s ++ spaces (width - length s)
