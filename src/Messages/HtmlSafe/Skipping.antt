-- ===== src/Messages/HtmlSafe/Skipping.antt =====
-- app/messages/html_safe.py: what stands in a skipped element leaves no trace.
use mind_wall.Prelude.{
  ℕ, zero, suc, ◌+◌, ◌-◌, ◌≡◌, refl, sym, ap, ◌∙◌, subst, Bool, true, false, ◌&&◌, ◌||◌, Option,
  none, List, [], ◌∷◌, ◌++◌, All, Bool-cases, inl, inr, if◌then◌else◌, arith,
}
use mind_wall.Wire.{Text, codes, text_eq, one_of, is_empty}
use mind_wall.Wire.Equality.{text_eq→eq}
use mind_wall.Messages.HtmlSafe.{
  HtmlEvent, start_tag, end_tag, char_data, HtmlLibrary, TextExtractor, new_extractor, skip_tags,
  block_tags, break_at, is_outside, close_anchor, leave_skipped, end_steps, closed_tag, start_steps,
  handled, fed, get_text, extract_text_from_html, extract_anchors_from_html,
}

-- A text of one list is not in another, where no text of the first is.
not_among :
    (xs ys : List Text) (t : Text)
    → All (λ x. one_of ys x ≡ false) xs
    → one_of xs t ≡ true
    → one_of ys t ≡ false
not_among [] ys t h e = cc
not_among (x ∷ xs) ys t h e = elim (Bool-cases (text_eq t x)) [
  | inl same ↦ subst (λ s. one_of ys s ≡ false) (sym (text_eq→eq t x same)) h.0
  | inr other ↦ not_among xs ys t h.1 (sym (ap (λ q. q || one_of xs t) other) ∙ e)
]

not_block : (tag : Text) → one_of skip_tags tag ≡ true → one_of block_tags tag ≡ false
not_block tag =
    not_among skip_tags block_tags tag (refl, (refl, (refl, (refl, (refl, (refl, (refl, tt)))))))

abbrev at : ℕ → TextExtractor → TextExtractor
at n x = record x { skip_depth = n }

no_anchor :
    (b : Bool) (x : TextExtractor)
    → x.current_anchor_href ≡ none
    → (if b then close_anchor x.current_anchor_href x else x) ≡ x
unfolding close_anchor
no_anchor true x h = ap (λ href. close_anchor href x) h
no_anchor false x h = refl

end_steps-skipped :
    (anchor : Bool) (n : ℕ) (x : TextExtractor)
    → x.current_anchor_href ≡ none
    → end_steps true anchor false (at (suc n) x) ≡ at n x
unfolding end_steps leave_skipped
end_steps-skipped anchor n x h =
    let less : suc n - 1 ≡ n = omega arith in
    ap (λ m. if anchor then close_anchor x.current_anchor_href (at m x) else at m x) less
    ∙ no_anchor anchor (at n x) h

no_break : (block : Bool) (n : ℕ) (x : TextExtractor) → break_at (block && is_outside (suc n)) x ≡ x
no_break true n x = refl
no_break false n x = refl

end_steps-inner :
    (anchor block : Bool) (n : ℕ) (x : TextExtractor)
    → x.current_anchor_href ≡ none
    → end_steps false anchor block (at (suc n) x) ≡ at (suc n) x
unfolding end_steps leave_skipped
end_steps-inner anchor block n x h =
    ap (λ (y : TextExtractor). break_at (block && is_outside y.skip_depth) y)
      (no_anchor anchor (at (suc n) x) h)
    ∙ no_break block n (at (suc n) x)

closed_tag-skipped :
    (tag : Text) (n : ℕ) (x : TextExtractor)
    → x.current_anchor_href ≡ none
    → one_of skip_tags tag ≡ true
    → closed_tag tag (at (suc n) x) ≡ at n x
unfolding closed_tag
closed_tag-skipped tag n x h s =
    ap (λ b. end_steps b (text_eq tag (codes "a")) (one_of block_tags tag) (at (suc n) x)) s
    ∙ ap (λ b. end_steps true (text_eq tag (codes "a")) b (at (suc n) x)) (not_block tag s)
    ∙ end_steps-skipped (text_eq tag (codes "a")) n x h

closed_tag-inner :
    (tag : Text) (n : ℕ) (x : TextExtractor)
    → x.current_anchor_href ≡ none
    → one_of skip_tags tag ≡ false
    → closed_tag tag (at (suc n) x) ≡ at (suc n) x
unfolding closed_tag
closed_tag-inner tag n x h s =
    ap (λ b. end_steps b (text_eq tag (codes "a")) (one_of block_tags tag) (at (suc n) x)) s
    ∙ end_steps-inner (text_eq tag (codes "a")) (one_of block_tags tag) n x h

deeper : (d k : ℕ) → suc (d + k) + 1 ≡ suc (suc d + k)
deeper d k = omega arith

one_deeper : (k : ℕ) → k + 1 ≡ suc (0 + k)
one_deeper k = omega arith

shifted : (d k : ℕ) → suc (suc d + k) ≡ suc (suc (d + k))
shifted d k = omega arith

clash : {A : Type 0} → false ≡ true → A
clash e = cc

module _ (lib : HtmlLibrary) where
  abbrev pub is_skipped : Text → Bool
  is_skipped tag = one_of skip_tags (lib.lower tag)

  -- Whether each skipped tag that is opened in the events is closed in them, and no other is, when d
  -- are open before them.
  abbrev pub is_closed : ℕ → List HtmlEvent → Bool
  is_closed d [] = is_outside d
  is_closed d (start_tag tag attrs ∷ es) =
      let deeper = is_closed (suc d) es in
      let level = is_closed d es in if is_skipped tag then deeper else level
  is_closed zero (end_tag tag ∷ es) =
      let level = is_closed zero es in if is_skipped tag then false else level
  is_closed (suc d) (end_tag tag ∷ es) =
      let higher = is_closed d es in
      let level = is_closed (suc d) es in if is_skipped tag then higher else level
  is_closed d (char_data t ∷ es) = is_closed d es

  fed-append :
      (es es' : List HtmlEvent) (x : TextExtractor)
      → fed lib (es ++ es') x ≡ fed lib es' (fed lib es x)
  unfolding fed
  fed-append [] es' x = refl
  fed-append (e ∷ es) es' x = fed-append es es' (handled lib e x)

  -- What is closed leaves a depth that is above zero as it is, and adds nothing.
  fed-skipped :
      (k d : ℕ) (es : List HtmlEvent) (x : TextExtractor)
      → x.current_anchor_href ≡ none
      → is_closed d es ≡ true
      → fed lib es (at (suc (d + k)) x) ≡ at (suc k) x
  unfolding fed handled start_steps
  fed-skipped k zero [] x h e = ap (λ m. at (suc m) x) (omega arith)
  fed-skipped k (suc d) [] x h e = cc
  fed-skipped k d (start_tag tag attrs ∷ es) x h e = elim (Bool-cases (is_skipped tag)) [
    | inl s ↦
        ap (λ b. fed lib es (start_steps b (lib.lower tag) attrs (at (suc (d + k)) x))) s
        ∙ ap (λ m. fed lib es (at m x)) (deeper d k)
        ∙ fed-skipped k (suc d) es x h
            (sym (ap (λ b. if b then is_closed (suc d) es else is_closed d es) s) ∙ e)
    | inr s ↦
        ap (λ b. fed lib es (start_steps b (lib.lower tag) attrs (at (suc (d + k)) x))) s
        ∙ fed-skipped k d es x h
            (sym (ap (λ b. if b then is_closed (suc d) es else is_closed d es) s) ∙ e)
  ]
  fed-skipped k zero (end_tag tag ∷ es) x h e = elim (Bool-cases (is_skipped tag)) [
    | inl s ↦ clash (sym (ap (λ b. if b then false else is_closed zero es) s) ∙ e)
    | inr s ↦
        ap (fed lib es) (closed_tag-inner (lib.lower tag) (zero + k) x h s)
        ∙ fed-skipped k zero es x h (sym (ap (λ b. if b then false else is_closed zero es) s) ∙ e)
  ]
  fed-skipped k (suc d) (end_tag tag ∷ es) x h e = elim (Bool-cases (is_skipped tag)) [
    | inl s ↦
        ap (λ m. fed lib es (closed_tag (lib.lower tag) (at m x))) (shifted d k)
        ∙ ap (fed lib es) (closed_tag-skipped (lib.lower tag) (suc (d + k)) x h s)
        ∙ fed-skipped k d es x h
            (sym (ap (λ b. if b then is_closed d es else is_closed (suc d) es) s) ∙ e)
    | inr s ↦
        ap (fed lib es) (closed_tag-inner (lib.lower tag) (suc d + k) x h s)
        ∙ fed-skipped k (suc d) es x h
            (sym (ap (λ b. if b then is_closed d es else is_closed (suc d) es) s) ∙ e)
  ]
  fed-skipped k d (char_data t ∷ es) x h e = fed-skipped k d es x h e

  module _ (before inner after : List HtmlEvent) (tag last : Text)
      (attrs : List (Text × Option Text)) where
    -- The events with a skipped element, and without it.
    abbrev pub with_element : List HtmlEvent
    with_element = before ++ start_tag tag attrs ∷ (inner ++ end_tag last ∷ after)

    fed-element :
        (x : TextExtractor)
        → x.current_anchor_href ≡ none
        → is_skipped tag ≡ true
        → is_skipped last ≡ true
        → is_closed 0 inner ≡ true
        → fed lib (start_tag tag attrs ∷ (inner ++ end_tag last ∷ after)) x ≡ fed lib after x
    unfolding fed handled start_steps
    fed-element x h s s' e =
        let k = x.skip_depth in
        ap (λ b. fed lib (inner ++ end_tag last ∷ after) (start_steps b (lib.lower tag) attrs x)) s
        ∙ fed-append inner (end_tag last ∷ after) (at (k + 1) x)
        ∙ ap (λ y. fed lib (end_tag last ∷ after) y)
            (ap (λ m. fed lib inner (at m x)) (one_deeper k) ∙ fed-skipped k 0 inner x h e)
        ∙ ap (fed lib after) (closed_tag-skipped (lib.lower last) k x h s')

    fed-with_element :
        (fed lib before new_extractor).current_anchor_href ≡ none
        → is_skipped tag ≡ true
        → is_skipped last ≡ true
        → is_closed 0 inner ≡ true
        → fed lib with_element new_extractor ≡ fed lib (before ++ after) new_extractor
    fed-with_element h s s' e =
        fed-append before (start_tag tag attrs ∷ (inner ++ end_tag last ∷ after)) new_extractor
        ∙ fed-element (fed lib before new_extractor) h s s' e
        ∙ sym (fed-append before after new_extractor)

    -- What stands in a skipped element leaves no trace: HTML with it has the text and the anchors of
    -- the HTML without it. No anchor is open before the element, and each skipped tag that is opened in
    -- it is closed in it.
    pub skipped_element :
        (html html' : Text)
        → is_empty html ≡ false
        → is_empty html' ≡ false
        → lib.feed html ≡ with_element
        → lib.feed html' ≡ before ++ after
        → (fed lib before new_extractor).current_anchor_href ≡ none
        → is_skipped tag ≡ true
        → is_skipped last ≡ true
        → is_closed 0 inner ≡ true
        → (extract_text_from_html lib html ≡ extract_text_from_html lib html')
          × (extract_anchors_from_html lib html ≡ extract_anchors_from_html lib html')
    unfolding extract_text_from_html extract_anchors_from_html
    skipped_element html html' some_text some_text' f f' h s s' e =
        let same : fed lib (lib.feed html) new_extractor ≡ fed lib (lib.feed html') new_extractor =
          ap (λ es. fed lib es new_extractor) f
          ∙ fed-with_element h s s' e
          ∙ ap (λ es. fed lib es new_extractor) (sym f') in
        (
          rw (some_text, some_text') (ap (get_text lib) same),
          rw (some_text, some_text') (ap (λ (x : TextExtractor). x.anchors) same),
        )
