-- ===== src/Pages/Landing.antt =====
-- The page `landing` of firmware/targets/esp32s3/main/main.c.
pub mod Head
mod Script
use dragon_bench.Common.{List, [], ◌∷◌, ◌++◌, String, Text, utf8, utf8_lines}
use Head.{landing_head}
use Script.{landing_render, landing_poll}

-- Its body before and behind the version of the firmware.
unfoldable pub landing_top : List String
landing_top =
    "<body>" ∷ "<header class=\"app-header\">" ∷ "  <div>"
    ∷ "    <p class=\"eyebrow\">Dragon-family characterization instrument</p>"
    ∷ "    <h1>DragonBench</h1>" ∷ []

unfoldable pub landing_body : List String
landing_body =
    "  </div>" ∷ "  <div class=\"api-status\" aria-label=\"API connection state\">"
    ∷ "    <span>API</span>"
    ∷ "    <div class=\"badge\" data-role=\"freshness\" data-status=\"connecting\">connecting&hellip;</div>"
    ∷ "  </div>" ∷ "</header>"
    ∷ "<section class=\"banner\" data-role=\"actuator-boundary\" aria-labelledby=\"actuator-boundary-heading\">"
    ∷ "  <h2 id=\"actuator-boundary-heading\">DragonBench characterization image</h2>"
    ∷ "  <p><strong>No product actuator support.</strong> This image cannot drive a heater or fan. All voltage, current, and rail evidence remains owned by external bench equipment.</p>"
    ∷ "</section>" ∷ "<section class=\"capabilities\" aria-label=\"Actuator capability boundary\">"
    ∷ "  <div class=\"capability\">" ∷ "    <span>Heater capability</span>"
    ∷ "    <strong data-role=\"capability-heater\" data-status=\"unsupported\">ABSENT</strong>"
    ∷ "  </div>" ∷ "  <div class=\"capability\">" ∷ "    <span>Fan-control capability</span>"
    ∷ "    <strong data-role=\"capability-fan\" data-status=\"unsupported\">ABSENT</strong>"
    ∷ "  </div>" ∷ "</section>"
    ∷ "<noscript><p style=\"width:min(1100px,100%);margin:0 auto 16px\">JavaScript is required to populate live values. The DragonBench API remains directly reachable at /api/v1/status, /api/v1/sensors, and /api/v1/workloads.</p></noscript>"
    ∷ "<main>"
    ∷ "  <section class=\"panel\" data-role=\"panel-status\" aria-labelledby=\"status-heading\">"
    ∷ "    <div class=\"panel-heading\">" ∷ "      <h2 id=\"status-heading\">Status</h2>"
    ∷ "      <p class=\"endpoint-note\" data-role=\"status-error\" hidden></p>" ∷ "    </div>"
    ∷ "    <div class=\"metric-grid\" data-role=\"status-fields\"></div>"
    ∷ "    <details><summary>Raw /api/v1/status</summary><pre data-role=\"raw-status\">unavailable</pre></details>"
    ∷ "  </section>"
    ∷ "  <section class=\"panel\" data-role=\"panel-sensors\" aria-labelledby=\"sensors-heading\">"
    ∷ "    <div class=\"panel-heading\">" ∷ "      <h2 id=\"sensors-heading\">Sensors</h2>"
    ∷ "      <p class=\"endpoint-note\" data-role=\"sensors-error\" hidden></p>" ∷ "    </div>"
    ∷ "    <div class=\"sensor-list\" data-role=\"sensor-fields\"></div>"
    ∷ "    <details><summary>Raw /api/v1/sensors</summary><pre data-role=\"raw-sensors\">unavailable</pre></details>"
    ∷ "  </section>"
    ∷ "  <section class=\"panel\" data-role=\"panel-workloads\" aria-labelledby=\"workloads-heading\">"
    ∷ "    <div class=\"panel-heading\">" ∷ "      <h2 id=\"workloads-heading\">Workloads</h2>"
    ∷ "      <p class=\"endpoint-note\" data-role=\"workloads-error\" hidden></p>" ∷ "    </div>"
    ∷ "    <div class=\"workload-list\" data-role=\"workload-fields\"></div>"
    ∷ "    <details><summary>Raw /api/v1/workloads</summary><pre data-role=\"raw-workloads\">unavailable</pre></details>"
    ∷ "  </section>" ∷ "</main>"
    ∷ "<footer>DragonBench characterizes deterministic workloads; it does not control product behavior.</footer>"
    ∷ []

-- landing, with CONFIG_DB_FIRMWARE_VERSION.
unfoldable pub landing_page : Text → Text
landing_page firmware_version =
    utf8_lines landing_head
    ++ (utf8_lines landing_top
        ++ (utf8
              "    <p class=\"lede\" data-role=\"identity\">Target: esp32s3-n8r8 &middot; Firmware: "
            ++ (firmware_version
                ++ (utf8 "</p>"
                    ++ (utf8_lines landing_body
                        ++ (utf8_lines landing_render ++ utf8_lines landing_poll))))))
