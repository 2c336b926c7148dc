-- ===== src/Sites/Rows.antt =====
-- The rows that SitesService reads and writes, and the bodies of its requests
-- (apps/api/src/sites/dto.ts).
use site_foundry.Json.{Json}
use site_foundry.Users.{AuditEntry}
use site_foundry.Ssl.{SiteStatus}
use site_foundry.Prelude.{Bool, Option, List}
use site_foundry.Text.{Text}

pub record Owner : Type 0 where
  pub id : Text
  pub tenant_id : Text

pub record Template : Type 0 where
  pub id : Text
  pub tenant_id : Option Text
  pub active : Bool
  pub version : Text
  pub category : Text
  pub param_schema : Json

-- The tracking columns of a site
pub record Tracking : Type 0 where
  pub ga4_id : Option Text
  pub meta_pixel_id : Option Text
  pub google_ads_tag : Json
  pub bing_uet_tag : Option Text
  pub pushvault_property_key : Option Text

pub record Site : Type 0 where
  pub id : Text
  pub tenant_id : Text
  pub name : Text
  pub client_id : Text
  pub server_id : Text
  pub template_id : Text
  pub template_version : Text
  pub domain : Text
  pub extra_domains : List Text
  pub extra_allowed_hosts : List Text
  pub destination_url : Text
  pub params : Json
  pub tracking : Tracking
  pub notes : Option Text
  pub ssl_auto_renew : Bool
  pub status : SiteStatus

-- `TrackingDto`: `none` is a field that is not given, and `some none` one that is `null`.
pub record TrackingDto : Type 0 where
  pub ga4_id : Option (Option Text)
  pub meta_pixel_id : Option (Option Text)
  pub google_ads_tag : Option Json
  pub bing_uet_tag : Option (Option Text)
  pub pushvault_property_key : Option (Option Text)

pub record CreateSiteDto : Type 0 where
  pub name : Text
  pub client_id : Text
  pub server_id : Text
  pub template_id : Text
  pub domain : Text
  pub extra_domains : Option (List Text)
  pub extra_allowed_hosts : Option (List Text)
  pub destination_url : Text
  pub params : Json
  pub tracking : Option TrackingDto
  pub notes : Option Text

-- `null` for the lists of hosts, whose `map` the source calls without a test, is left out.
pub record UpdateSiteDto : Type 0 where
  pub template_id : Option Text
  pub name : Option Text
  pub params : Option Json
  pub destination_url : Option Text
  pub extra_domains : Option (List Text)
  pub extra_allowed_hosts : Option (List Text)
  pub ssl_auto_renew : Option Bool
  pub notes : Option (Option Text)
  pub tracking : Option TrackingDto

pub record Tables : Type 0 where
  pub sites : List Site
  pub clients : List Owner
  pub servers : List Owner
  pub templates : List Template
  pub audit : List AuditEntry
