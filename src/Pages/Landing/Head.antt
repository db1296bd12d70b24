-- ===== src/Pages/Landing/Head.antt =====
-- The head, with the style, of the page `landing` of firmware/targets/esp32s3/main/main.c, one line of the source after
-- another.
use dragon_bench.Common.{List, [], ◌∷◌, String}

unfoldable pub landing_head : List String
landing_head =
    "<!doctype html>" ∷ "<html lang=\"en\">" ∷ "<head>" ∷ "<meta charset=\"utf-8\">"
    ∷ "<meta name=\"viewport\" content=\"width=device-width, initial-scale=1\">"
    ∷ "<meta name=\"color-scheme\" content=\"light dark\">" ∷ "<title>DragonBench</title>"
    ∷ "<style>" ∷ ":root{" ∷ "  color-scheme:light dark;" ∷ "  --bg:light-dark(#fff,#181818);"
    ∷ "  --fg:light-dark(#1a1c1f,#fff);"
    ∷ "  --card:color-mix(in oklab, var(--fg) 5%, transparent);"
    ∷ "  --muted-fg:light-dark(rgba(26,28,31,.58),rgba(255,255,255,.58));"
    ∷ "  --border:light-dark(rgba(26,28,31,.1),rgba(255,255,255,.1));"
    ∷ "  --code:light-dark(#f6f7f8,#0e0f10);" ∷ "  --primary:light-dark(#339cff,#83c3ff);"
    ∷ "  --ok:light-dark(#2d9a4f,#74d58b);" ∷ "  --warn:light-dark(#cc671a,#f59a56);"
    ∷ "  --bad:light-dark(#c43827,#ff8549);" ∷ "  --radius:6px;" ∷ "  --radius-sm:4px;" ∷ "}"
    ∷ "*{box-sizing:border-box}" ∷ "[hidden]{display:none!important}"
    ∷ "body{margin:0;min-height:100vh;color:var(--fg);background:var(--bg);font:14px/1.4 -apple-system,system-ui,\"Segoe UI\",Roboto,sans-serif;padding:0 16px}"
    ∷ "header,main,footer,.banner,.capabilities{width:min(1100px,100%);margin-inline:auto}"
    ∷ ".app-header{display:flex;justify-content:space-between;gap:24px;align-items:end;flex-wrap:wrap;padding:20px 0 14px}"
    ∷ ".eyebrow{color:var(--primary);font-size:.72rem;font-weight:700;letter-spacing:.1em;text-transform:uppercase;margin:0 0 4px;font-family:ui-monospace,SFMono-Regular,Consolas,monospace}"
    ∷ "h1{margin:0 0 4px;font-size:clamp(1.7rem,4vw,2.4rem);letter-spacing:-.03em;line-height:1}"
    ∷ ".lede{margin:0;color:var(--muted-fg)}"
    ∷ ".api-status{display:grid;justify-items:end;gap:4px}"
    ∷ ".api-status>span{color:var(--primary);font-size:.64rem;font-weight:700;letter-spacing:.09em;text-transform:uppercase;font-family:ui-monospace,SFMono-Regular,Consolas,monospace}"
    ∷ "h2{font-size:1.05rem;margin:0 0 6px}"
    ∷ ".banner{margin-bottom:12px;border:1px solid var(--border);border-left:4px solid var(--warn);border-radius:var(--radius);background:var(--card);box-shadow:0 1px 3px light-dark(rgba(0,0,0,.08),rgba(0,0,0,.3));padding:12px 14px}"
    ∷ ".banner h2{font-size:.95rem;letter-spacing:.02em;text-transform:uppercase}"
    ∷ ".banner p{margin:6px 0 0;color:var(--muted-fg)}"
    ∷ ".capabilities{margin-bottom:12px;display:flex;gap:16px;flex-wrap:wrap;border:1px solid var(--border);border-radius:var(--radius);background:var(--card);box-shadow:0 1px 3px light-dark(rgba(0,0,0,.08),rgba(0,0,0,.3));padding:12px 14px}"
    ∷ ".capability{display:flex;align-items:baseline;gap:8px}"
    ∷ ".capability>span{color:var(--muted-fg);font-size:.8rem}"
    ∷ ".capability>strong{--status-color:var(--warn);font:700 .78rem ui-monospace,SFMono-Regular,Consolas,monospace;padding:2px 9px;border-radius:var(--radius-sm);border:1px solid var(--border);color:var(--status-color);background:color-mix(in srgb,var(--status-color) 10%,transparent)}"
    ∷ "main{display:grid;gap:12px;padding-bottom:20px}"
    ∷ ".panel{border:1px solid var(--border);border-radius:var(--radius);background:var(--card);box-shadow:0 1px 3px light-dark(rgba(0,0,0,.08),rgba(0,0,0,.3));padding:14px}"
    ∷ ".panel-heading{display:flex;justify-content:space-between;align-items:start;gap:12px;margin-bottom:8px}"
    ∷ ".endpoint-note{margin:0;color:var(--bad);font-size:.8rem}"
    ∷ ".metric-grid{display:grid;grid-template-columns:repeat(4,minmax(0,1fr));gap:8px}"
    ∷ ".metric{display:grid;gap:4px;min-width:0;padding:8px 9px;border:1px solid var(--border);border-radius:var(--radius-sm);box-shadow:0 1px 2px light-dark(rgba(0,0,0,.06),rgba(0,0,0,.24))}"
    ∷ ".metric span{color:var(--muted-fg);font-size:.68rem;text-transform:uppercase;letter-spacing:.07em}"
    ∷ ".metric strong{font:700 .85rem ui-monospace,SFMono-Regular,Consolas,monospace;overflow-wrap:anywhere}"
    ∷ ".sensor-list{display:flex;flex-direction:column;gap:7px}"
    ∷ ".sensor-row{display:flex;align-items:center;justify-content:space-between;gap:10px;padding:7px 10px;border:1px solid var(--border);border-radius:var(--radius-sm);flex-wrap:wrap}"
    ∷ ".sensor-name{color:var(--muted-fg)}"
    ∷ ".sensor-value{font:700 .85rem ui-monospace,SFMono-Regular,Consolas,monospace;overflow-wrap:anywhere}"
    ∷ ".workload-list{display:flex;flex-direction:row;flex-wrap:wrap;gap:7px}"
    ∷ ".badge{--status-color:var(--muted-fg);display:inline-flex;align-items:center;gap:6px;border:1px solid var(--border);border-radius:var(--radius-sm);padding:4px 9px;color:var(--status-color);background:color-mix(in srgb,var(--status-color) 10%,transparent);font-size:.76rem;white-space:nowrap}"
    ∷ ".badge::before{content:\"\";width:6px;height:6px;border-radius:50%;background:var(--status-color)}"
    ∷ "[data-status=\"available\"],[data-status=\"pass\"],[data-status=\"complete\"],[data-status=\"connected\"]{--status-color:var(--ok)}"
    ∷ "[data-status=\"unavailable\"],[data-status=\"unsupported\"],[data-status=\"aborting\"],[data-status=\"aborted\"],[data-status=\"stale\"],[data-status=\"disconnected\"]{--status-color:var(--warn)}"
    ∷ "[data-status=\"error\"],[data-status=\"fail\"]{--status-color:var(--bad)}"
    ∷ "[data-status=\"running\"],[data-status=\"connecting\"],[data-status=\"live\"]{--status-color:var(--primary)}"
    ∷ "strong[data-status]{color:var(--status-color)}"
    ∷ "details{border-top:1px solid var(--border);padding-top:8px;margin-top:8px}"
    ∷ "summary{cursor:pointer;color:var(--muted-fg);font-size:.78rem;width:fit-content;font-family:ui-monospace,SFMono-Regular,Consolas,monospace}"
    ∷ "pre{margin:8px 0 0;max-height:320px;overflow:auto;background:var(--code);border:1px solid var(--border);border-radius:var(--radius-sm);padding:10px;font:.72rem/1.5 ui-monospace,SFMono-Regular,Consolas,monospace;white-space:pre}"
    ∷ "footer{padding:16px 0 24px;color:var(--muted-fg);text-align:center;font-size:.76rem}"
    ∷ "@media (max-width:900px){.metric-grid{grid-template-columns:repeat(2,minmax(0,1fr))}}"
    ∷ "@media (max-width:620px){.app-header{flex-direction:column;align-items:start}.api-status{justify-items:start}.metric-grid{grid-template-columns:1fr}.sensor-row{flex-direction:column;align-items:start}}"
    ∷ "@media (prefers-reduced-motion:reduce){*{transition-duration:0s!important;animation-duration:0s!important}}"
    ∷ "</style>" ∷ "</head>" ∷ []
