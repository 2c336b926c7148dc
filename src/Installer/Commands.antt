-- ===== src/Installer/Commands.antt =====
-- The texts that the installer sends: nginx.ts, and the commands of the steps of
-- installer.service.ts.
use site_foundry.Prelude.{
  ℕ, ◌≡◌, refl, ◌&&◌, ◌||◌, not, Option, none, some, List, [], ◌∷◌, ◌++◌, map, ◌==◌, if◌then◌else◌,
  is_some, take, drop, keep,
}
use site_foundry.Text.{Text, txt, starts_with, join}

-- `siteId.replace(/-/g, '').slice(0, n)`
unfoldable pub short_id : ℕ → Text → Text
short_id n site_id = take n (keep (λ c. not (c == b'-')) site_id)

unfoldable pub system_user_for : Text → Text
unfolding short_id txt
system_user_for site_id = txt "site_" ++ short_id 8 site_id

pub record SitePaths : Type 0 where
  pub home : Text
  pub document_root : Text
  pub releases_dir : Text
  pub vhost_available : Text
  pub vhost_enabled : Text

unfoldable pub site_paths : Text → Text → SitePaths
unfolding short_id txt
site_paths user site_id = record {
  home = txt "/home/" ++ user;
  document_root = txt "/home/" ++ (user ++ txt "/public");
  releases_dir = txt "/home/" ++ (user ++ txt "/releases");
  vhost_available = txt "/etc/nginx/sites-available/site_" ++ short_id 12 site_id;
  vhost_enabled = txt "/etc/nginx/sites-enabled/site_" ++ short_id 12 site_id;
}

-- Pieces of a text, one after another.
unfoldable pub concat : List Text → Text
concat [] = []
concat (t ∷ ts) = t ++ concat ts

unfoldable pub and_then : List Text → Text
and_then parts = join (txt " && ") parts

unfoldable pub generate_vhost : Text → Text → List Text → Text → Text
unfolding concat
generate_vhost site_system_user domain extra_domains document_root = concat (
    txt "# Managed by SiteFoundry - do not edit by hand (site user: "
    ∷ site_system_user
    ∷ txt ")\nserver {\n    listen 80;\n    listen [::]:80;\n    server_name "
    ∷ join (txt " ") (domain ∷ extra_domains)
    ∷ txt ";\n\n    root "
    ∷ document_root
    ∷ txt ";\n    index index.html;\n\n    gzip on;\n"
    ∷ txt "    gzip_types text/plain text/css application/json application/javascript "
    ∷ txt "text/xml application/xml image/svg+xml;\n\n"
    ∷ txt "    add_header X-Frame-Options SAMEORIGIN always;\n"
    ∷ txt "    add_header X-Content-Type-Options nosniff always;\n"
    ∷ txt "    add_header Referrer-Policy strict-origin-when-cross-origin always;\n\n"
    ∷ txt "    location = /pv-sw.js {\n        add_header Service-Worker-Allowed \"/\";\n"
    ∷ txt "        try_files $uri =404;\n    }\n\n"
    ∷ txt "    location / {\n        try_files $uri $uri/ =404;\n    }\n\n"
    ∷ txt "    location ~* \\.(css|js|png|jpg|jpeg|gif|webp|svg|ico|woff2?)$ {\n"
    ∷ txt "        expires 7d;\n"
    ∷ txt "        add_header Cache-Control \"public, max-age=604800\";\n"
    ∷ txt "        try_files $uri =404;\n    }\n}\n"
    ∷ [])

unfoldable pub create_user_command : Text → SitePaths → Text
create_user_command user paths = and_then (
    concat
      (txt "id -u " ∷ user ∷ txt " >/dev/null 2>&1 || sudo -n useradd -m -s /bin/bash " ∷ user ∷ [])
    ∷ concat (txt "sudo -n mkdir -p " ∷ paths.document_root ∷ txt " " ∷ paths.releases_dir ∷ [])
    ∷ concat (txt "sudo -n chown -R " ∷ user ∷ txt ":" ∷ user ∷ txt " " ∷ paths.home ∷ [])
    ∷ concat (txt "sudo -n chmod 750 " ∷ paths.home ∷ txt " " ∷ paths.document_root ∷ [])
    ∷ concat (txt "sudo -n usermod -aG " ∷ user ∷ txt " www-data 2>/dev/null || true" ∷ [])
    ∷ [])

-- The swap of `deployArtifact`: the old document root is moved aside, and the release into place.
unfoldable pub swap_command : Text → Text → Text → Text → Text
swap_command user release root remote_zip = and_then (
    txt
      "command -v unzip >/dev/null || sudo -n DEBIAN_FRONTEND=noninteractive apt-get install -y unzip"
    ∷ concat (txt "sudo -n rm -rf " ∷ release ∷ [])
    ∷ concat (txt "sudo -n mkdir -p " ∷ release ∷ [])
    ∷ concat (txt "sudo -n unzip -q " ∷ remote_zip ∷ txt " -d " ∷ release ∷ [])
    ∷ concat (txt "sudo -n chown -R " ∷ user ∷ txt ":" ∷ user ∷ txt " " ∷ release ∷ [])
    ∷ concat (txt "sudo -n chmod -R o+rX " ∷ release ∷ [])
    ∷ concat (txt "sudo -n rm -rf " ∷ root ∷ txt ".old" ∷ [])
    ∷ concat (
        txt "[ -d "
        ∷ root
        ∷ txt " ] && sudo -n mv "
        ∷ root
        ∷ txt " "
        ∷ root
        ∷ txt ".old || true"
        ∷ [])
    ∷ concat (txt "sudo -n mv " ∷ release ∷ txt " " ∷ root ∷ [])
    ∷ concat (txt "sudo -n rm -f " ∷ remote_zip ∷ [])
    ∷ [])

unfoldable pub nginx_command : Text → SitePaths → Text
nginx_command b64 paths = and_then (
    concat (
      txt "echo "
      ∷ b64
      ∷ txt " | base64 -d | sudo -n tee "
      ∷ paths.vhost_available
      ∷ txt " >/dev/null"
      ∷ [])
    ∷ concat (txt "sudo -n ln -sf " ∷ paths.vhost_available ∷ txt " " ∷ paths.vhost_enabled ∷ [])
    ∷ txt "sudo -n nginx -t"
    ∷ txt "sudo -n systemctl reload nginx"
    ∷ [])

unfoldable pub certbot_command : Text → List Text → Text → Text
certbot_command domain extra_domains email = concat (
    txt "sudo -n certbot --nginx "
    ∷ join (txt " ") (map (λ d. txt "-d " ++ d) (domain ∷ extra_domains))
    ∷ txt " --non-interactive --agree-tos -m "
    ∷ email
    ∷ txt " --redirect"
    ∷ [])

unfoldable pub renew_command : Text → Text
renew_command domain = concat (
    txt "sudo -n certbot renew --cert-name "
    ∷ domain
    ∷ txt " --force-renewal --non-interactive"
    ∷ [])

unfoldable pub enddate_command : Text → Text
enddate_command domain = concat (
    txt "sudo -n openssl x509 -enddate -noout -in /etc/letsencrypt/live/"
    ∷ domain
    ∷ txt "/cert.pem"
    ∷ [])

-- `.+` does not pass the end of a line.
line : Text → Text
line [] = []
line (c ∷ s) =
    let rest = line s in if c == 10 || c == 13 || c == 8232 || c == 8233 then [] else c ∷ rest

abbrev non_empty : Text → Option Text
non_empty [] = none
non_empty (c ∷ s) = some (c ∷ s)

-- `stdout.match(/notAfter=(.+)/)`, the group
unfoldable pub not_after : Text → Option Text
unfolding line txt starts_with
not_after [] = none
not_after (c ∷ s) =
    let later = not_after s in
    let here = non_empty (line (drop 9 (c ∷ s))) in
    if starts_with (c ∷ s) (txt "notAfter=") && is_some here then here else later

-- The script of `installRenewalHook`
unfoldable pub hook_script : Text → Text → Text → Text → Text
hook_script site_id domain panel_url secret = join (txt "\n") (
    txt "#!/bin/sh"
    ∷ concat (txt "# SiteFoundry: notify panel after renewal of " ∷ domain ∷ [])
    ∷ concat (txt "case \"$RENEWED_DOMAINS\" in *" ∷ domain ∷ txt "*)" ∷ [])
    ∷ txt "  EXP=$(openssl x509 -enddate -noout -in \"$RENEWED_LINEAGE/cert.pem\" | cut -d= -f2)"
    ∷ concat (
        txt "  curl -fsS -m 10 -X POST \""
        ∷ panel_url
        ∷ txt "/api/v1/internal/ssl-renewed/"
        ∷ site_id
        ∷ txt "\" \\"
        ∷ [])
    ∷ concat (
        txt "    -H \"content-type: application/json\" -H \"x-internal-secret: "
        ∷ secret
        ∷ txt "\" \\"
        ∷ [])
    ∷ txt "    -d \"{\\\"expires_at_raw\\\":\\\"$EXP\\\"}\" || true"
    ∷ txt ";; esac"
    ∷ []
    ∷ [])

unfoldable pub hook_command : Text → Text → Text
hook_command site_id b64 =
    let name = concat (txt "sitefoundry-" ∷ short_id 12 site_id ∷ txt ".sh" ∷ []) in
    and_then (
      txt "sudo -n mkdir -p /etc/letsencrypt/renewal-hooks/deploy"
      ∷ concat (
          txt "echo "
          ∷ b64
          ∷ txt " | base64 -d | sudo -n tee /etc/letsencrypt/renewal-hooks/deploy/"
          ∷ name
          ∷ txt " >/dev/null"
          ∷ [])
      ∷ concat (txt "sudo -n chmod +x /etc/letsencrypt/renewal-hooks/deploy/" ∷ name ∷ [])
      ∷ [])

paths_test :
    (site_paths (system_user_for (txt "ab-cd-ef-gh-ij")) (txt "ab-cd-ef-gh-ij")).document_root
    ≡ txt "/home/site_abcdefgh/public"
unfolding site_paths system_user_for
paths_test = refl
