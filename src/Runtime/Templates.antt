-- ===== src/Runtime/Templates.antt =====
-- internal/runtime/template.go: the operational defaults of each application type. The text of the
-- Dockerfile templates is left out.
use mini_dock.Prelude.{
  ℕ, String, Bool, ◌||◌, ltb, Option, none, some, List, [], ◌∷◌, ◌=s=◌, any, if◌then◌else◌,
}

pub record Template : Type 0 where
  pub kind : String
  pub name : String
  pub port : ℕ
  pub cpus : String
  pub memory : String
  pub health_endpoint : String
  pub command : String
  pub user : String

abbrev template : String → String → String → String → String → String → String → Option Template
template kind name cpus memory health_endpoint command user = some (record {
  kind = kind;
  name = name;
  port = 8080;
  cpus = cpus;
  memory = memory;
  health_endpoint = health_endpoint;
  command = command;
  user = user;
})

-- For
unfoldable pub template_for : String → Option Template
template_for kind =
    if kind =s= "static"
    then template kind "Estática (Node + Caddy)" "0.50" "128m" "/" "caddy run" "caddy"
    else if kind =s= "angular_static"
    then template kind "Angular estático" "0.50" "192m" "/" "caddy run" "caddy"
    else if kind =s= "node_ssr"
    then template kind "Node SSR (start)" "0.75" "512m" "/healthz" "npm run start" "node"
    else if kind =s= "vite_ssr"
    then template kind "Vite SSR (servidor Node)" "0.75" "512m" "/healthz" "node server.js" "node"
    else if kind =s= "astro_static"
    then template kind "Astro estático" "0.50" "128m" "/" "caddy run" "caddy"
    else if kind =s= "astro_ssr"
    then template kind "Astro SSR (Node)" "0.75" "384m" "/" "node ./dist/server/entry.mjs" "node"
    else if kind =s= "nuxt_static"
    then template kind "Nuxt estático" "0.50" "192m" "/" "caddy run" "caddy"
    else if kind =s= "nuxt_ssr"
    then template kind "Nuxt SSR (Nitro)" "0.75" "512m" "/" "node .output/server/index.mjs" "node"
    else if kind =s= "svelte_static"
    then template kind "SvelteKit estático" "0.50" "128m" "/" "caddy run" "caddy"
    else if kind =s= "svelte_ssr"
    then template kind "SvelteKit SSR (Node)" "0.75" "384m" "/" "node build" "node"
    else if kind =s= "nextjs"
    then template kind "Next.js standalone" "0.75" "512m" "/healthz" "node server.js" "node"
    else if kind =s= "go"
    then template kind "API Go" "0.50" "256m" "/healthz" "/app" "65532:65532"
    else if kind =s= "rust"
    then template kind "API Rust" "0.50" "256m" "/healthz" "/app" "65532:65532"
    else if kind =s= "java"
    then template kind "API Java" "1.00" "768m" "/healthz" "java -jar /app.jar" "10001:10001"
    else none

-- Types
abbrev pub types : List String
types =
    "static" ∷ "angular_static" ∷ "node_ssr" ∷ "vite_ssr" ∷ "astro_static" ∷ "astro_ssr"
    ∷ "nuxt_static" ∷ "nuxt_ssr" ∷ "svelte_static" ∷ "svelte_ssr" ∷ "nextjs" ∷ "go" ∷ "rust"
    ∷ "java" ∷ "custom" ∷ []

-- IsSupported
abbrev pub is_supported : String → Bool
is_supported kind = any (λ candidate. kind =s= candidate) types

abbrev filled_in :
    (String → ℕ → String → String) → String → ℕ → String → Option Template → Option String
filled_in text kind port health_endpoint none = none
filled_in text kind port health_endpoint (some t) =
    let used_port = if ltb port 1 || ltb 65535 port then t.port else port in
    let endpoint = if health_endpoint =s= "" then t.health_endpoint else health_endpoint in
    some (text kind used_port endpoint)

-- Dockerfile; `text` is the template's text with the port and the endpoint filled in.
abbrev pub dockerfile : (String → ℕ → String → String) → String → ℕ → String → Option String
dockerfile text kind port health_endpoint =
    filled_in text kind port health_endpoint (template_for kind)
