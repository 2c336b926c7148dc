-- ===== src/Servers/Steps.antt =====
-- `buildProvisionSteps` of apps/api/src/servers/provision-steps.ts: the commands of the base
-- provisioning, in their order.
use site_foundry.Prelude.{ℕ, String, List, [], ◌∷◌, ◌++◌, ◌==◌, if◌then◌else◌}
use site_foundry.Text.{Text, txt, join}

pub record ProvisionStep : Type 0 where
  pub key : Text
  pub title : Text
  pub command : Text

abbrev step : String → String → Text → ProvisionStep
step key title command = record { key = txt key; title = txt title; command = command }

-- `NGINX_BASE_CONF`
pub nginx_base_conf : Text
nginx_base_conf = join (txt "\n") (
    txt "server_tokens off;"
    ∷ txt "# Ubuntu's default nginx.conf already enables gzip; only extend the types"
    ∷ txt "# (setting \"gzip on;\" again here is a duplicate directive and fails nginx -t)."
    ∷ (txt "gzip_types text/plain text/css application/json application/javascript text/xml "
        ++ txt "application/xml image/svg+xml;")
    ∷ txt "gzip_min_length 1024;"
    ∷ txt "add_header X-Content-Type-Options nosniff always;"
    ∷ txt "add_header X-Frame-Options SAMEORIGIN always;"
    ∷ txt "add_header Referrer-Policy strict-origin-when-cross-origin always;"
    ∷ [])

-- A unit in a quoted word of the shell: a quote is written `'\''`, and a line end parts two words.
abbrev shell_unit : ℕ → Text
shell_unit c = if c == b'\'' then txt "'\\''" else if c == 10 then txt "' '" else c ∷ []

pub shell_words : Text → Text
shell_words [] = []
shell_words (c ∷ s) = shell_unit c ++ shell_words s

abbrev install : String → String → Text
install program wanted =
    txt "command -v "
    ++ (txt program
        ++ (txt " >/dev/null || sudo -n DEBIAN_FRONTEND=noninteractive apt-get install -y "
            ++ txt wanted))

unfoldable pub conf_command : Text
unfolding nginx_base_conf shell_words
conf_command =
    txt "printf '%s\\n' '"
    ++ (shell_words nginx_base_conf
        ++ txt
            "' | sudo -n tee /etc/nginx/conf.d/sitefoundry-base.conf >/dev/null && sudo -n nginx -t")

unfoldable pub hook_command : Text → Text
hook_command panel_base_url =
    txt "sudo -n mkdir -p /etc/letsencrypt/renewal-hooks/deploy && "
    ++ (txt "printf '#!/bin/sh\\n# SiteFoundry: notify panel after successful renewal\\n"
        ++ (txt "curl -fsS -m 10 -X POST \""
            ++ (panel_base_url
                ++ (txt "/api/v1/internal/ssl-renewed/site\" -H \"content-type: application/json\" "
                    ++ (txt "-d \"{\\\"domains\\\":\\\"$RENEWED_DOMAINS\\\"}\" || true\\n' "
                        ++ (txt "| sudo -n tee "
                            ++ (txt
                                  "/etc/letsencrypt/renewal-hooks/deploy/sitefoundry.sh >/dev/null && "
                                ++ (txt "sudo -n chmod +x "
                                    ++ txt
                                        "/etc/letsencrypt/renewal-hooks/deploy/sitefoundry.sh"))))))))

abbrev node_command : Text
node_command =
    txt "command -v node >/dev/null || (curl -fsSL https://deb.nodesource.com/setup_20.x "
    ++ (txt "| sudo -n bash - && "
        ++ txt "sudo -n DEBIAN_FRONTEND=noninteractive apt-get install -y nodejs)")

abbrev firewall_command : Text
firewall_command =
    install "ufw" "ufw"
    ++ (txt "; sudo -n ufw allow 22/tcp && sudo -n ufw allow 80/tcp "
        ++ txt "&& sudo -n ufw allow 443/tcp && sudo -n ufw --force enable")

unfoldable pub build_provision_steps : Text → List ProvisionStep
unfolding conf_command hook_command
build_provision_steps panel_base_url =
    step "apt_update" "Updating package lists"
      (txt "sudo -n DEBIAN_FRONTEND=noninteractive apt-get update -y")
    ∷ step "install_nginx" "Installing nginx" (install "nginx" "nginx")
    ∷ step "install_certbot" "Installing certbot + nginx plugin"
        (install "certbot" "certbot python3-certbot-nginx")
    ∷ step "install_node" "Installing Node 20" node_command
    ∷ step "firewall" "Configuring firewall (ufw: 22, 80, 443)" firewall_command
    ∷ step "base_dir" "Creating /var/www/sitefoundry" (txt "sudo -n mkdir -p /var/www/sitefoundry")
    ∷ step "nginx_base_conf" "Applying nginx base config (gzip, security headers)" conf_command
    ∷ step "nginx_enable" "Enabling and reloading nginx"
        (txt "sudo -n systemctl enable nginx && sudo -n systemctl reload nginx")
    ∷ step "fail2ban" "Installing fail2ban" (install "fail2ban-server" "fail2ban")
    ∷ step "certbot_hook" "Installing certbot auto-renew webhook" (hook_command panel_base_url)
    ∷ []
