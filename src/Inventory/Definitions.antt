-- ===== src/Inventory/Definitions.antt =====
-- internal/inventory/inventory.go: the components of the inventory contract.
use quantum_control.Prelude.{List, [], ◌∷◌, ◌++◌}
use quantum_control.Text.{text}
use quantum_control.Inventory.Scan.{ComponentDefinition}

abbrev keyhelp_definition : ComponentDefinition
keyhelp_definition = record {
  id = text "keyhelp";
  name = text "KeyHelp";
  category = text "hosting-control";
  paths = text "/etc/keyhelp" ∷ text "/home/keyhelp" ∷ [];
  managed_marker = [];
  version_files = [];
  versions = [];
  services = text "keyhelp.service" ∷ [];
  service_globs = [];
  globs = [];
  capabilities = text "databases" ∷ text "domains" ∷ text "hosting-control" ∷ text "tls" ∷ [];
}

abbrev apache_definition : ComponentDefinition
apache_definition = record {
  id = text "apache";
  name = text "Apache HTTP Server";
  category = text "web-server";
  paths = text "/etc/apache2" ∷ text "/etc/httpd" ∷ [];
  managed_marker = [];
  version_files = [];
  versions =
      record { command = text "apache2"; arguments = text "-v" ∷ [] }
      ∷ record { command = text "httpd"; arguments = text "-v" ∷ [] }
      ∷ [];
  services = text "apache2.service" ∷ text "httpd.service" ∷ [];
  service_globs = [];
  globs = [];
  capabilities = text "http" ∷ text "reverse-proxy" ∷ [];
}

abbrev nginx_definition : ComponentDefinition
nginx_definition = record {
  id = text "nginx";
  name = text "Nginx";
  category = text "web-server";
  paths = text "/etc/nginx" ∷ [];
  managed_marker = [];
  version_files = [];
  versions = record { command = text "nginx"; arguments = text "-v" ∷ [] } ∷ [];
  services = text "nginx.service" ∷ [];
  service_globs = [];
  globs = [];
  capabilities = text "http" ∷ text "reverse-proxy" ∷ [];
}

abbrev php_definition : ComponentDefinition
php_definition = record {
  id = text "php";
  name = text "PHP / PHP-FPM";
  category = text "application-runtime";
  paths = text "/etc/php" ∷ [];
  managed_marker = [];
  version_files = [];
  versions = record { command = text "php"; arguments = text "-v" ∷ [] } ∷ [];
  services = text "php-fpm.service" ∷ [];
  service_globs =
      text "/etc/systemd/system/php*-fpm.service"
      ∷ text "/lib/systemd/system/php*-fpm.service"
      ∷ text "/usr/lib/systemd/system/php*-fpm.service"
      ∷ [];
  globs = text "/run/php/php*-fpm.sock" ∷ [];
  capabilities = text "fastcgi" ∷ text "php" ∷ [];
}

abbrev mariadb_definition : ComponentDefinition
mariadb_definition = record {
  id = text "mariadb";
  name = text "MariaDB / MySQL";
  category = text "database";
  paths = text "/etc/mysql" ∷ text "/var/lib/mysql" ∷ [];
  managed_marker = [];
  version_files = [];
  versions =
      record { command = text "mariadb"; arguments = text "--version" ∷ [] }
      ∷ record { command = text "mysql"; arguments = text "--version" ∷ [] }
      ∷ [];
  services = text "mariadb.service" ∷ text "mysql.service" ∷ [];
  service_globs = [];
  globs = [];
  capabilities = text "sql" ∷ [];
}

abbrev postgresql_definition : ComponentDefinition
postgresql_definition = record {
  id = text "postgresql";
  name = text "PostgreSQL";
  category = text "database";
  paths = text "/etc/postgresql" ∷ text "/var/lib/postgresql" ∷ [];
  managed_marker = [];
  version_files = [];
  versions = record { command = text "psql"; arguments = text "--version" ∷ [] } ∷ [];
  services = text "postgresql.service" ∷ [];
  service_globs = [];
  globs = [];
  capabilities = text "sql" ∷ [];
}

abbrev container_runtime_definition : ComponentDefinition
container_runtime_definition = record {
  id = text "container-runtime";
  name = text "Container Runtime";
  category = text "containers";
  paths = text "/var/lib/docker" ∷ text "/var/lib/containers" ∷ [];
  managed_marker = [];
  version_files = [];
  versions =
      record { command = text "docker"; arguments = text "--version" ∷ [] }
      ∷ record { command = text "podman"; arguments = text "--version" ∷ [] }
      ∷ [];
  services = text "docker.service" ∷ text "podman.service" ∷ [];
  service_globs = [];
  globs = [];
  capabilities = text "containers" ∷ [];
}

abbrev ollama_definition : ComponentDefinition
ollama_definition = record {
  id = text "ollama";
  name = text "Ollama";
  category = text "ai-runtime";
  paths = text "/usr/local/bin/ollama" ∷ text "/usr/bin/ollama" ∷ [];
  managed_marker = [];
  version_files = [];
  versions = record { command = text "ollama"; arguments = text "--version" ∷ [] } ∷ [];
  services = text "ollama.service" ∷ [];
  service_globs = [];
  globs = [];
  capabilities = text "local-inference" ∷ [];
}

abbrev quantum_runtime_definition : ComponentDefinition
quantum_runtime_definition = record {
  id = text "quantum-runtime";
  name = text "Quantum Runtime";
  category = text "ai-runtime";
  paths = text "/usr/local/bin/quantum-runtime" ∷ text "/etc/quantum-runtime" ∷ [];
  managed_marker = text "/etc/quantum-runtime/.managed.json";
  version_files = [];
  versions = [];
  services = text "quantum-runtime.service" ∷ [];
  service_globs = [];
  globs = [];
  capabilities = text "local-inference" ∷ text "model-registry" ∷ text "streaming" ∷ [];
}

abbrev searxng_definition : ComponentDefinition
searxng_definition = record {
  id = text "searxng";
  name = text "SearXNG";
  category = text "search";
  paths = text "/etc/searxng" ∷ text "/opt/searxng" ∷ [];
  managed_marker = [];
  version_files = [];
  versions = record { command = text "searxng"; arguments = text "--version" ∷ [] } ∷ [];
  services = text "searxng.service" ∷ [];
  service_globs = [];
  globs = [];
  capabilities = text "web-search" ∷ [];
}

abbrev ember_coreui_definition : ComponentDefinition
ember_coreui_definition = record {
  id = text "ember-coreui";
  name = text "Ember CoreUI";
  category = text "application";
  paths = text "/opt/ember-coreui" ∷ text "/srv/ember-coreui" ∷ text "/var/lib/ember-coreui" ∷ [];
  managed_marker = [];
  version_files = text "/opt/ember-coreui/VERSION" ∷ text "/srv/ember-coreui/VERSION" ∷ [];
  versions = [];
  services = text "ember-coreui.service" ∷ [];
  service_globs = [];
  globs = [];
  capabilities = text "ai-ui" ∷ [];
}

abbrev starlight_unit_game_definition : ComponentDefinition
starlight_unit_game_definition = record {
  id = text "starlight-unit-game";
  name = text "ST" ++ (0xCE ∷ 0x9B ∷ text "RLIGHT UNIT Game/Repack");
  category = text "application";
  paths =
      text "/opt/starlight-unit-game"
      ∷ text "/srv/starlight-unit-game"
      ∷ text "/var/www/starlight-unit"
      ∷ [];
  managed_marker = [];
  version_files =
      text "/opt/starlight-unit-game/VERSION" ∷ text "/srv/starlight-unit-game/VERSION" ∷ [];
  versions = [];
  services =
      text "starlight-unit-game.service"
      ∷ text "ember-worker.service"
      ∷ text "ember-worker-media.service"
      ∷ [];
  service_globs = [];
  globs = [];
  capabilities = text "ember-workers" ∷ text "game" ∷ [];
}

-- defaultDefinitions
abbrev pub default_definitions : List ComponentDefinition
default_definitions =
    keyhelp_definition ∷ apache_definition ∷ nginx_definition ∷ php_definition ∷ mariadb_definition
    ∷ postgresql_definition ∷ container_runtime_definition ∷ ollama_definition
    ∷ quantum_runtime_definition ∷ searxng_definition ∷ ember_coreui_definition
    ∷ starlight_unit_game_definition ∷ []
