-- ===== src/Validate/Accepts/PageLoop.antt =====
-- What the loop over the pages accepts.
use gombit_forge.Prelude.{
  ℕ, ◌+◌, ◌≡◌, refl, ap, ◌∙◌, Bool, true, false, not, ◌&&◌, Option, none, some, List, [], ◌∷◌, ◌++◌,
  all, contains, ◌==◌, text_eq, Text, codes, arith, Bool-cases, inl, inr,
}
use gombit_forge.Prelude.Space.{is_blank}
use gombit_forge.Names.{is_slug}
use gombit_forge.StableId.{StableId, kind_page}
use gombit_forge.ProjectSpec.{
  ProjectSpec, Page, PageType, resource_table, resource_form, resource_detail, dashboard_page,
  other_page,
}
use gombit_forge.Validate.{
  report_if, at_index, name_reports, name_used, missing_label, invalid_slug, duplicate_slug,
}
use gombit_forge.Validate.Fields.{is_empty}
use gombit_forge.Validate.Pages.{
  pages_from, validate_pages, type_reports, config_reports, validate_dashboard_page,
  resource_type_reports, is_form_type, is_detail_type, claims_form, claims_detail,
}
use gombit_forge.Validate.Accepts.{
  Accepts, is_empty-append, reports-Accepts, claim_id-Accepts, >>-Accepts, Accepts-test, is_unused,
}
use gombit_forge.Validate.Accepts.Loops.{
  is_unused-nil, is_unused-name_used, is_empty-report_if, is_empty-name_reports,
}
use gombit_forge.Validate.Accepts.Parts
use gombit_forge.Validate.Accepts.Valid.{
  has_own_config, is_valid_resource_page, is_valid_dashboard, entries, on_some, if_some,
  is_valid_page, is_valid_of_type, resources_of, slugs, are_valid_pages, page_claims,
}

and_assoc : (a b c : Bool) → ((a && b) && c) ≡ (a && (b && c))
and_assoc false b c = refl
and_assoc true b c = refl

-- One round of the loop over the pages: `k` and `n` tell that the page claims a form or a detail page.
page_round :
    (e l g u t k f n d a U U' F F' D D' : Bool)
    → e ≡ ((l && (g && not u)) && (t && not (k && f) && not (n && d)))
    → ((g && not u) && U') ≡ (g && U)
    → F ≡ (not (k && f) && F')
    → D ≡ (not (n && d) && D')
    → (e && (a && U' && F' && D')) ≡ ((((l && g) && t) && a) && U && F && D)
page_round e l g u t k f n d false U U' F F' D D' p q r z = ground arith
page_round e false g u t k f n d true U U' F F' D D' p q r z = ground arith
page_round e true g u false k f n d true U U' F F' D D' p q r z = ground arith
page_round e true g u true k f n d true U U' F F' D D' p q r z = ground (arith, p, q, r, z)

unclaimed :
    (a b c k x n y : Bool)
    → k ≡ false
    → n ≡ false
    → (a && (b && c)) ≡ (a && b && c && not (k && x) && not (n && y))
unclaimed a b c k x n y p q = ground (arith, p, q)

-- One page's part of the resources that have a page of a kind.
picked_round :
    (picks : Page → Bool) (used : List StableId) (p : Page) (ps : List Page)
    → is_unused used (resources_of picks (p ∷ ps)) ≡ (
        not (picks p && contains p.resource used)
        && is_unused (name_used (picks p) used p.resource) (resources_of picks ps))
picked_round picks used p ps = elim (Bool-cases (picks p)) [
  | inl e ↦ rw e (ground arith)
  | inr e ↦ rw e refl
]

module _ (s : ProjectSpec) where
  resource_type_reports-is_empty :
      (path : Text) (forms details : List StableId) (p : Page)
      → is_empty (resource_type_reports s path forms details p) ≡ (
          (has_own_config p && is_valid_resource_page s p)
          && not (claims_form p && contains p.resource forms)
          && not (claims_detail p && contains p.resource details))
  resource_type_reports-is_empty path forms details p = simp (
    is_empty-append, is_empty-report_if, Parts.config_reports-is_empty,
    Parts.validate_resource_page-is_empty,
  )

  type_reports-is_empty :
      (path : Text) (forms details : List StableId) (p : Page) (t : PageType)
      → p.type ≡ t
      → is_empty (type_reports s path forms details p t) ≡ (
          is_valid_of_type s p t
          && not (claims_form p && contains p.resource forms)
          && not (claims_detail p && contains p.resource details))
  unfolding type_reports
  type_reports-is_empty path forms details p resource_table e =
      resource_type_reports-is_empty path forms details p
  type_reports-is_empty path forms details p resource_form e =
      resource_type_reports-is_empty path forms details p
  type_reports-is_empty path forms details p resource_detail e =
      resource_type_reports-is_empty path forms details p
  type_reports-is_empty path forms details p dashboard_page e =
      is_empty-append (config_reports p path) (validate_dashboard_page s p path)
      ∙ (λ i.
          Parts.config_reports-is_empty p path i
          && Parts.validate_dashboard_page-is_empty s p path i)
      ∙ unclaimed (has_own_config p) (p.resource == []) (if_some (is_valid_dashboard s) p.dashboard)
          (claims_form p) (contains p.resource forms) (claims_detail p)
          (contains p.resource details) (ap (λ t. is_form_type t && not (p.resource == [])) e)
          (ap (λ t. is_detail_type t && not (p.resource == [])) e)
  type_reports-is_empty path forms details p (other_page t) e = refl

  page_found :
      (path : Text) (forms details : List StableId) (used : List Text) (p : Page)
      → is_empty (
          report_if (is_blank p.label) missing_label (path ++ codes ".label") p.id
          ++ name_reports
              (is_slug p.slug)
              invalid_slug
              duplicate_slug
              (path ++ codes ".slug")
              p.id
              used
              p.slug
          ++ type_reports s path forms details p p.type)
        ≡ ((not (is_blank p.label) && (is_slug p.slug && not (contains p.slug used)))
            && (is_valid_of_type s p p.type
                && not (claims_form p && contains p.resource forms)
                && not (claims_detail p && contains p.resource details)))
  page_found path forms details used p =
      let by_type = type_reports-is_empty path forms details p p.type refl in
      simp (is_empty-append, is_empty-report_if, is_empty-name_reports, by_type, and_assoc)

  pages_from-Accepts :
      (index : ℕ) (used : List Text) (forms details : List StableId) (ps : List (Option Page))
      → Accepts (pages_from s index used forms details ps) (page_claims ps) (
          all (on_some (is_valid_page s)) ps
          && is_unused used (slugs ps)
          && is_unused forms (resources_of claims_form (entries ps))
          && is_unused details (resources_of claims_detail (entries ps)))
  unfolding pages_from
  pages_from-Accepts index used forms details [] = reports-Accepts []
  pages_from-Accepts index used forms details (none ∷ ps) =
      >>-Accepts (reports-Accepts _) (pages_from-Accepts (index + 1) used forms details ps)
  pages_from-Accepts index used forms details (some p ∷ ps) =
      let path = at_index (codes "$.pages") index in
      let found =
        report_if (is_blank p.label) missing_label (path ++ codes ".label") p.id
        ++ name_reports (is_slug p.slug) invalid_slug duplicate_slug (path ++ codes ".slug") p.id
            used p.slug
        ++ type_reports s path forms details p p.type in
      Accepts-test
        (page_round (is_empty found) (not (is_blank p.label)) (is_slug p.slug)
          (contains p.slug used) (is_valid_of_type s p p.type) (claims_form p)
          (contains p.resource forms) (claims_detail p) (contains p.resource details)
          (all (on_some (is_valid_page s)) ps) (is_unused used (p.slug ∷ slugs ps))
          (is_unused (name_used (is_slug p.slug) used p.slug) (slugs ps))
          (is_unused forms (resources_of claims_form (p ∷ entries ps)))
          (is_unused (name_used (claims_form p) forms p.resource)
            (resources_of claims_form (entries ps)))
          (is_unused details (resources_of claims_detail (p ∷ entries ps)))
          (is_unused (name_used (claims_detail p) details p.resource)
            (resources_of claims_detail (entries ps)))
          (page_found path forms details used p)
          (is_unused-name_used (is_slug p.slug) used (slugs ps) p.slug)
          (picked_round claims_form forms p (entries ps))
          (picked_round claims_detail details p (entries ps)))
        (>>-Accepts (claim_id-Accepts p.id kind_page (path ++ codes ".id")) (
          >>-Accepts (reports-Accepts found) (
            pages_from-Accepts (index + 1) (name_used (is_slug p.slug) used p.slug)
              (name_used (claims_form p) forms p.resource)
              (name_used (claims_detail p) details p.resource) ps)))

  pub validate_pages-Accepts : Accepts (validate_pages s) (page_claims s.pages) (are_valid_pages s)
  unfolding validate_pages
  validate_pages-Accepts =
      Accepts-test
        (λ i.
          all (on_some (is_valid_page s)) s.pages
          && is_unused-nil (slugs s.pages) i
          && is_unused-nil (resources_of claims_form (entries s.pages)) i
          && is_unused-nil (resources_of claims_detail (entries s.pages)) i)
        (pages_from-Accepts 0 [] [] [] s.pages)
