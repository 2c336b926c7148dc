-- ===== src/Content/Tests.antt =====
-- A save from a deployed site, and the theorems at that input.
use site_foundry.Content.Path.{
  split_dots, put_field, child, set_child, container_for, set_path, set_at,
}
use site_foundry.Content.Edits.{
  brand_fields, hero_fields, is_pair, is_allowed_parts, is_allowed, collapse, clean, accept_edits,
  sanitize_edits,
}
use site_foundry.Content.Service.{
  Site, Db, safe_equal, set_all, write_edits, save_accepted, save_authorised, save_found,
  save_edits,
}
use site_foundry.Content.Protected.{Rows, save_edits-IsKept}
use site_foundry.Content.Authorised.{IsRefused, IsAnswered, save_edits_lem}
use site_foundry.Leads.Fields.{put}
use site_foundry.Json.{Json, str, obj, end, member, lookup, to_string}
use site_foundry.Effects.{ok, ◌>>=◌}
use site_foundry.Installer.State.{live}
use site_foundry.Prelude.{◌≡◌, refl, ◌⊎◌, true, false, some, [], ◌∷◌, find}
use site_foundry.Text.{txt, text_eq, is_empty, trim}

abbrev shop : Site
shop = record {
  id = txt "s1";
  tenant_id = txt "t";
  content_edit_key = some (txt "key");
  params = obj (member (txt "hero") (obj (member (txt "headline") (str (txt "Old")) end)) end);
  install_status = live;
}

abbrev db : Db
db = record { sites = shop ∷ []; started = [] }

abbrev edits : Json
edits = obj (
    member (txt "hero.headline") (str (txt " New  one "))
      (member (txt "tracking.ga4") (str (txt "x")) end))

saved_row : Site
saved_row = record shop {
  params = obj (member (txt "hero") (obj (member (txt "headline") (str (txt "New one")) end)) end);
}

save_test : save_edits (txt "s1") (txt "key") edits db ≡ (
  ok (record { saved = 1; publishing = true }),
  record { sites = saved_row ∷ []; started = (txt "t", txt "s1") ∷ [] },
)
unfolding save_edits save_found save_authorised save_accepted write_edits set_all set_at split_dots
    set_path set_child child put_field container_for lookup sanitize_edits accept_edits is_allowed
    is_allowed_parts is_pair clean collapse trim put safe_equal to_string text_eq txt ◌>>=◌
    saved_row brand_fields hero_fields
save_test = refl

save_edits-IsKept_example : Rows db.sites (save_edits (txt "s1") (txt "key") edits db).1.sites
save_edits-IsKept_example = save_edits-IsKept (txt "s1") (txt "key") edits db

save_edits_lem_example :
    IsRefused (save_edits (txt "s1") (txt "key") edits db) db
    ⊎ ((site : Site) × (find (λ (s : Site). text_eq s.id (txt "s1")) db.sites ≡ some site)
        × (site.content_edit_key ≡ some (txt "key"))
        × (is_empty (txt "key") ≡ false)
        × IsAnswered (save_edits (txt "s1") (txt "key") edits db))
save_edits_lem_example = save_edits_lem (txt "s1") (txt "key") edits db
