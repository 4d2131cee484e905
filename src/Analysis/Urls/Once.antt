-- ===== src/Analysis/Urls/Once.antt =====
-- app/analysis/deterministic.py, `_check_suspicious_url_structure`: the loop with its set of issues
-- against three separate searches.
use mind_wall.Prelude.{
  ◌≡◌, refl, ◌∙◌, ap, subst, append-nil, Bool, true, false, ◌||◌, Option, none, some, List, [], ◌∷◌,
  ◌++◌, select, find, select-append, Option-cases, inl, inr, if◌then◌else◌,
}
use mind_wall.Wire.{Text, codes, text_eq}
use mind_wall.Models.Numbers.{FloatOps}
use mind_wall.Models.Analysing.{ExtractedUrl, ParsedMessage}
use mind_wall.Analysis.Checks.{TextLibrary, Finding}
use mind_wall.Analysis.Urls.{
  SeenIssues, nothing_seen, is_ip_host, is_deep, has_keyword, ip_finding, deep_finding,
  keyword_finding, when_new, url_findings, url_seen, scan_urls, check_suspicious_url_structure,
}

abbrev pub of_rule : Text → Finding → Bool
of_rule rule f = text_eq f.rule rule

module _ (lib : TextLibrary) (ops : FloatOps) where
  -- The finding of the first URL that passes, if there is one.
  abbrev pub first_finding :
      (ExtractedUrl → Bool) → (ExtractedUrl → Finding) → List ExtractedUrl → List Finding
  first_finding p f urls = elim (find p urls) [ none ↦ [] | some url ↦ f url ∷ [] ]

  -- The path of the URL parses and has a keyword.
  abbrev pub has_path_keyword : ExtractedUrl → Bool
  has_path_keyword url = elim (lib.url_path url.raw_url) [
    | none ↦ false
    | some path ↦ has_keyword lib path
  ]

  abbrev unless_seen : Bool → List Finding → List Finding
  unless_seen true fs = []
  unless_seen false fs = fs

  -- The three issues of the loop.
  data Issue : Type 0 where
    ip_issue deep_issue path_issue : Issue

  abbrev rule_of : Issue → Text
  rule_of ip_issue = codes "url_ip_address_host"
  rule_of deep_issue = codes "url_excessive_subdomains"
  rule_of path_issue = codes "url_credential_path"

  abbrev shows : Issue → ExtractedUrl → Bool
  shows ip_issue = is_ip_host lib
  shows deep_issue = is_deep lib
  shows path_issue = has_path_keyword

  abbrev shows_at : Issue → ExtractedUrl → Text → Bool
  shows_at ip_issue url path = is_ip_host lib url
  shows_at deep_issue url path = is_deep lib url
  shows_at path_issue url path = has_keyword lib path

  abbrev finding_of : Issue → ExtractedUrl → Finding
  finding_of ip_issue = ip_finding lib ops
  finding_of deep_issue = deep_finding lib ops
  finding_of path_issue = keyword_finding lib ops

  abbrev is_seen : Issue → SeenIssues → Bool
  is_seen ip_issue seen = seen.ip_host
  is_seen deep_issue seen = seen.deep_subdomain
  is_seen path_issue seen = seen.cred_path

  shows_path :
      (i : Issue) (url : ExtractedUrl) (path : Text)
      → lib.url_path url.raw_url ≡ some path
      → shows i url ≡ shows_at i url path
  shows_path ip_issue url path found = refl
  shows_path deep_issue url path found = refl
  shows_path path_issue url path found =
      ap
        (λ (o : Option Text). elim o as (λ _. Bool) [
          | none ↦ false
          | some path ↦ has_keyword lib path
        ])
        found

  select_own :
      (p : Finding → Bool) (f : Finding) (b c : Bool)
      → p f ≡ true
      → select p (when_new lib ops b c f) ≡ when_new lib ops b c f
  select_own p f true true h = refl
  select_own p f true false h = rw h refl
  select_own p f false c h = refl

  select_other :
      (p : Finding → Bool) (f : Finding) (b c : Bool)
      → p f ≡ false
      → select p (when_new lib ops b c f) ≡ []
  select_other p f true true h = refl
  select_other p f true false h = rw h refl
  select_other p f false c h = refl

  -- Of three lists, what a test selects where it selects nothing of two of them.
  select_three :
      (p : Finding → Bool) (xs ys zs xs' ys' zs' : List Finding)
      → select p xs ≡ xs'
      → select p ys ≡ ys'
      → select p zs ≡ zs'
      → select p (xs ++ ys ++ zs) ≡ xs' ++ ys' ++ zs'
  select_three p xs ys zs xs' ys' zs' e f g =
      rw (select-append p (xs ++ ys) zs, select-append p xs ys, e, f, g) refl

  -- What a round finds of one rule.
  round-select :
      (i : Issue) (url : ExtractedUrl) (path : Text) (seen : SeenIssues)
      → select (of_rule (rule_of i)) (url_findings lib ops url path seen)
        ≡ when_new lib ops (shows_at i url path) (is_seen i seen) (finding_of i url)
  unfolding url_findings ip_finding deep_finding keyword_finding
  round-select ip_issue url path seen =
      select_three (of_rule (rule_of ip_issue))
        (when_new lib ops (is_ip_host lib url) seen.ip_host (ip_finding lib ops url))
        (when_new lib ops (is_deep lib url) seen.deep_subdomain (deep_finding lib ops url))
        (when_new lib ops (has_keyword lib path) seen.cred_path (keyword_finding lib ops url))
        (when_new lib ops (is_ip_host lib url) seen.ip_host (ip_finding lib ops url)) [] []
        (select_own (of_rule (rule_of ip_issue)) (ip_finding lib ops url) (is_ip_host lib url)
          seen.ip_host refl)
        (select_other (of_rule (rule_of ip_issue)) (deep_finding lib ops url) (is_deep lib url)
          seen.deep_subdomain refl)
        (select_other (of_rule (rule_of ip_issue)) (keyword_finding lib ops url)
          (has_keyword lib path) seen.cred_path refl)
      ∙ append-nil _
      ∙ append-nil _
  round-select deep_issue url path seen =
      select_three (of_rule (rule_of deep_issue))
        (when_new lib ops (is_ip_host lib url) seen.ip_host (ip_finding lib ops url))
        (when_new lib ops (is_deep lib url) seen.deep_subdomain (deep_finding lib ops url))
        (when_new lib ops (has_keyword lib path) seen.cred_path (keyword_finding lib ops url)) []
        (when_new lib ops (is_deep lib url) seen.deep_subdomain (deep_finding lib ops url)) []
        (select_other (of_rule (rule_of deep_issue)) (ip_finding lib ops url) (is_ip_host lib url)
          seen.ip_host refl)
        (select_own (of_rule (rule_of deep_issue)) (deep_finding lib ops url) (is_deep lib url)
          seen.deep_subdomain refl)
        (select_other (of_rule (rule_of deep_issue)) (keyword_finding lib ops url)
          (has_keyword lib path) seen.cred_path refl)
      ∙ append-nil _
  round-select path_issue url path seen =
      select_three (of_rule (rule_of path_issue))
        (when_new lib ops (is_ip_host lib url) seen.ip_host (ip_finding lib ops url))
        (when_new lib ops (is_deep lib url) seen.deep_subdomain (deep_finding lib ops url))
        (when_new lib ops (has_keyword lib path) seen.cred_path (keyword_finding lib ops url)) [] []
        (when_new lib ops (has_keyword lib path) seen.cred_path (keyword_finding lib ops url))
        (select_other (of_rule (rule_of path_issue)) (ip_finding lib ops url) (is_ip_host lib url)
          seen.ip_host refl)
        (select_other (of_rule (rule_of path_issue)) (deep_finding lib ops url) (is_deep lib url)
          seen.deep_subdomain refl)
        (select_own (of_rule (rule_of path_issue)) (keyword_finding lib ops url)
          (has_keyword lib path) seen.cred_path refl)

  -- A rule is found once more where the URL shows it and it was not seen, and then it is seen.
  seen_step :
      (b c : Bool) (url : ExtractedUrl) (f : ExtractedUrl → Finding) (rest : Option ExtractedUrl)
      → when_new lib ops b c (f url)
          ++ unless_seen (c || b) (elim rest [ none ↦ [] | some u ↦ f u ∷ [] ])
        ≡ unless_seen c (elim (if b then some url else rest) [ none ↦ [] | some u ↦ f u ∷ [] ])
  seen_step true true url f rest = refl
  seen_step true false url f rest = refl
  seen_step false true url f rest = refl
  seen_step false false url f rest = refl

  is_seen-url_seen :
      (i : Issue) (url : ExtractedUrl) (path : Text) (seen : SeenIssues)
      → is_seen i (url_seen lib ops url path seen) ≡ (is_seen i seen || shows_at i url path)
  unfolding url_seen
  is_seen-url_seen ip_issue url path seen = refl
  is_seen-url_seen deep_issue url path seen = refl
  is_seen-url_seen path_issue url path seen = refl

  nothing_left : (b : Bool) → [] ≡ unless_seen b []
  nothing_left true = refl
  nothing_left false = refl

  -- What is left to find of one rule.
  scan_urls-select :
      (i : Issue) (urls : List ExtractedUrl) (seen : SeenIssues) {fs : List Finding}
      → scan_urls lib ops urls seen ≡ some fs
      → select (of_rule (rule_of i)) fs
        ≡ unless_seen (is_seen i seen) (first_finding (shows i) (finding_of i) urls)
  unfolding scan_urls
  scan_urls-select i [] seen {fs} e =
      let q : [] ≡ fs = cc in
      subst (λ gs. select (of_rule (rule_of i)) gs ≡ unless_seen (is_seen i seen) []) q
        (nothing_left (is_seen i seen))
  scan_urls-select i (url ∷ urls) seen {fs} e = elim (Option-cases (lib.url_path url.raw_url)) [
    | inl missing ↦ (let e' = rw (missing, scan_urls) at e in cc)
    | inr (path, found) ↦
        (let e1 = rw (found, scan_urls) at e in
          elim (Option-cases (scan_urls lib ops urls (url_seen lib ops url path seen))) [
            | inl missing ↦ (let e' = rw missing at e1 in cc)
            | inr (rest, found') ↦
                (let e2 = rw found' at e1 in
                  let q : url_findings lib ops url path seen ++ rest ≡ fs = cc in
                  subst
                    (λ gs.
                      select (of_rule (rule_of i)) gs
                      ≡ unless_seen (is_seen i seen)
                          (first_finding (shows i) (finding_of i) (url ∷ urls)))
                    q
                    (rw
                      (
                        select-append (of_rule (rule_of i)) (url_findings lib ops url path seen)
                            rest,
                        round-select i url path seen,
                        scan_urls-select i urls (url_seen lib ops url path seen) found',
                        is_seen-url_seen i url path seen,
                        ← shows_path i url path found,
                      )
                      (seen_step (shows i url) (is_seen i seen) url (finding_of i)
                        (find (shows i) urls))))
          ])
  ]

  -- Where every URL can be parsed, the loop reports each of the three issues for the first URL that
  -- shows it, once, and does not report an issue that none shows.
  pub check_suspicious_url_structure_once :
      (msg : ParsedMessage) {fs : List Finding}
      → check_suspicious_url_structure lib ops msg ≡ some fs
      → (select (of_rule (codes "url_ip_address_host")) fs
          ≡ first_finding (is_ip_host lib) (ip_finding lib ops) msg.urls)
        × (select (of_rule (codes "url_excessive_subdomains")) fs
            ≡ first_finding (is_deep lib) (deep_finding lib ops) msg.urls)
        × (select (of_rule (codes "url_credential_path")) fs
            ≡ first_finding has_path_keyword (keyword_finding lib ops) msg.urls)
  unfolding check_suspicious_url_structure
  check_suspicious_url_structure_once msg e = (
    scan_urls-select ip_issue msg.urls nothing_seen e,
    scan_urls-select deep_issue msg.urls nothing_seen e,
    scan_urls-select path_issue msg.urls nothing_seen e,
  )
