-- ===== src/Pages/Setup.antt =====
-- The page `setup_page` of firmware/targets/esp32s3/main/main.c, one line of the source after another.
use dragon_bench.Common.{List, [], ◌∷◌, ◌++◌, String, Text, utf8_lines}

-- Its head with the style.
unfoldable pub setup_head : List String
setup_head =
    "<!doctype html>" ∷ "<html lang=\"en\">" ∷ "<head>" ∷ "<meta charset=\"utf-8\">"
    ∷ "<meta name=\"viewport\" content=\"width=device-width, initial-scale=1\">"
    ∷ "<meta name=\"color-scheme\" content=\"light dark\">"
    ∷ "<title>DragonBench Wi-Fi setup</title>" ∷ "<style>"
    ∷ ":root{color-scheme:light dark;--bg:light-dark(#fff,#181818);--fg:light-dark(#1a1c1f,#fff);"
    ∷ "--card:color-mix(in oklab, var(--fg) 5%, transparent);--muted-fg:light-dark(rgba(26,28,31,.58),rgba(255,255,255,.58));"
    ∷ "--border:light-dark(rgba(26,28,31,.1),rgba(255,255,255,.1));--primary:light-dark(#339cff,#83c3ff);--radius:6px;--radius-sm:4px}"
    ∷ "*{box-sizing:border-box}"
    ∷ "body{margin:0;min-height:100vh;color:var(--fg);background:var(--bg);font:14px/1.4 -apple-system,system-ui,\"Segoe UI\",Roboto,sans-serif;padding:0 16px}"
    ∷ "main{width:min(560px,100%);margin:0 auto;padding:20px 0;display:grid;gap:12px}"
    ∷ "h1{margin:0;font-size:1.6rem;letter-spacing:-.02em}" ∷ "p{margin:0;color:var(--muted-fg)}"
    ∷ ".panel{border:1px solid var(--border);border-radius:var(--radius);background:var(--card);padding:14px;display:grid;gap:10px}"
    ∷ "label{display:grid;gap:4px;color:var(--muted-fg);font-size:.8rem}"
    ∷ "input,button{font:inherit;color:var(--fg);background:var(--bg);border:1px solid var(--border);border-radius:var(--radius-sm);padding:8px 10px}"
    ∷ "button{cursor:pointer;border-color:var(--primary);color:var(--primary);font-weight:700}"
    ∷ "dl{display:grid;grid-template-columns:max-content 1fr;gap:4px 12px;margin:0}"
    ∷ "dt{color:var(--muted-fg)}dd{margin:0;font-family:ui-monospace,SFMono-Regular,Consolas,monospace;overflow-wrap:anywhere}"
    ∷ "a{color:var(--primary)}" ∷ "</style>" ∷ "</head>" ∷ []

-- Its body.
unfoldable pub setup_body : List String
setup_body =
    "<body>" ∷ "<main>" ∷ "  <h1>Wi-Fi setup</h1>"
    ∷ "  <p>Join this DragonBench to a 2.4 GHz network. The direct access point stays up, but may drop for a few seconds while the radio moves to the network's channel.</p>"
    ∷ "  <form class=\"panel\" data-role=\"sta-form\">"
    ∷ "    <label>Network name (SSID)<input data-role=\"sta-ssid\" maxlength=\"31\" required autocomplete=\"off\"></label>"
    ∷ "    <label>Password (blank for an open network)<input data-role=\"sta-password\" type=\"password\" maxlength=\"63\" autocomplete=\"off\"></label>"
    ∷ "    <button type=\"submit\">Connect</button>" ∷ "    <p data-role=\"sta-message\"></p>"
    ∷ "  </form>" ∷ "  <section class=\"panel\" aria-label=\"Station status\">" ∷ "    <dl>"
    ∷ "      <dt>State</dt><dd data-role=\"sta-state\">&mdash;</dd>"
    ∷ "      <dt>Network</dt><dd data-role=\"sta-current\">&mdash;</dd>"
    ∷ "      <dt>Address</dt><dd data-role=\"sta-ip\">&mdash;</dd>"
    ∷ "      <dt>Last disconnect reason</dt><dd data-role=\"sta-reason\">&mdash;</dd>" ∷ "    </dl>"
    ∷ "    <p data-role=\"sta-freshness\">Waiting for the device…</p>" ∷ "  </section>"
    ∷ "  <p><a href=\"/\">Back to the dashboard</a></p>" ∷ "</main>" ∷ []

-- Its script.
unfoldable pub setup_script : List String
setup_script =
    "<script>" ∷ "(function(){"
    ∷ "  function role(name){return document.querySelector('[data-role=\"'+name+'\"]')}"
    ∷ "  function show(name,value){role(name).textContent=value===undefined||value===null||value===''?'—':String(value)}"
    ∷ "  var REASONS={2:'authentication timed out',4:'association timed out',8:'left to reconfigure',15:'handshake timed out (wrong password?)',"
    ∷ "    201:'network not found',202:'authentication failed',204:'handshake timed out (wrong password?)',"
    ∷ "    210:'no network with compatible security',211:'network security below WPA2'};"
    ∷ "  function reason(code){return code?(REASONS[code]||'reason')+' ('+code+')':'—'}"
    ∷ "  var message=role('sta-message'),freshness=role('sta-freshness'),pending=null,lastOk=0,inFlight=false;"
    ∷ "  role('sta-form').addEventListener('submit',function(event){"
    ∷ "    event.preventDefault();" ∷ "    var ssid=role('sta-ssid').value;"
    ∷ "    message.textContent='Sending…';"
    ∷ "    fetch('/api/v1/network/sta',{method:'POST',headers:{'Content-Type':'application/json'},"
    ∷ "      body:JSON.stringify({ssid:ssid,password:role('sta-password').value})})"
    ∷ "    .then(function(res){return res.json().then(function(data){return {ok:res.ok,data:data}})})"
    ∷ "    .then(function(r){"
    ∷ "      if(r.ok){pending={id:r.data.request_id,ssid:r.data.ssid};message.textContent='Connecting to '+pending.ssid+'…'}"
    ∷ "      else{pending=null;message.textContent='Rejected: '+(r.data.error||'unknown error')}"
    ∷ "    })"
    ∷ "    .catch(function(){pending=null;message.textContent='No response to the request. If the access point dropped, reconnect to it and check the status below.'});"
    ∷ "  });" ∷ "  function requestIdNewer(candidate,reference){"
    ∷ "    var distance=(candidate-reference)>>>0;"
    ∷ "    return distance!==0&&distance<0x80000000;" ∷ "  }" ∷ "  function render(n){"
    ∷ "    var connected=n.sta_state==='connected';"
    ∷ "    show('sta-state',n.sta_state);show('sta-current',n.sta_ssid);show('sta-ip',connected?n.sta_ip:undefined);"
    ∷ "    role('sta-reason').textContent=connected?'—':reason(n.sta_last_disconnect_reason);"
    ∷ "    if(!pending)return;" ∷ "    if(n.sta_config_request_id!==pending.id){"
    ∷ "      if(requestIdNewer(n.sta_config_request_id,pending.id)){message.textContent='A newer submission replaced this one.';pending=null}"
    ∷ "      return;" ∷ "    }"
    ∷ "    if(n.sta_config_result==='failed'){message.textContent='Could not apply these settings; the previous network is still in use.';pending=null}"
    ∷ "    else if(connected&&n.sta_ssid===pending.ssid){message.textContent='Connected to '+pending.ssid+' at '+n.sta_ip+'.';pending=null}"
    ∷ "    else if(n.sta_last_disconnect_reason&&n.sta_last_disconnect_reason!==8)"
    ∷ "      message.textContent='Not connected to '+pending.ssid+' yet: '+reason(n.sta_last_disconnect_reason)+'. Retrying.';"
    ∷ "  }" ∷ "  function poll(){" ∷ "    if(inFlight)return;" ∷ "    inFlight=true;"
    ∷ "    var ctl=new AbortController(),timer=setTimeout(function(){ctl.abort()},4000);"
    ∷ "    fetch('/api/v1/status',{cache:'no-store',signal:ctl.signal}).then(function(res){return res.json()}).then(function(data){"
    ∷ "      lastOk=Date.now();render(data.network||{});"
    ∷ "    }).catch(function(){}).then(function(){clearTimeout(timer);inFlight=false});" ∷ "  }"
    ∷ "  function updateFreshness(){"
    ∷ "    if(!lastOk){freshness.textContent='Waiting for the device…';return}"
    ∷ "    var age=Math.round((Date.now()-lastOk)/1000);"
    ∷ "    freshness.textContent=age<5?'Live':'No response for '+age+' s; values above may be stale. Reconnect to the DragonBench access point if this persists.';"
    ∷ "  }" ∷ "  poll();" ∷ "  setInterval(poll,2000);" ∷ "  setInterval(updateFreshness,1000);"
    ∷ "})();" ∷ "</script>" ∷ "</body>" ∷ "</html>" ∷ []

-- setup_page.
unfoldable pub setup_page : Text
setup_page = utf8_lines setup_head ++ (utf8_lines setup_body ++ utf8_lines setup_script)
