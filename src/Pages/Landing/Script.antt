-- ===== src/Pages/Landing/Script.antt =====
-- The script of the page `landing` of firmware/targets/esp32s3/main/main.c, one line of the source after
-- another.
use dragon_bench.Common.{List, [], ◌∷◌, String}

-- The part that shows what the device answered.
unfoldable pub landing_render : List String
landing_render =
    "<script>" ∷ "(function(){" ∷ "  var ENDPOINTS=['status','sensors','workloads'];"
    ∷ "  var STALE_MS=5000;" ∷ "  var last={};"
    ∷ "  function role(name){return document.querySelector('[data-role=\"'+name+'\"]')}"
    ∷ "  function clear(el){while(el.firstChild)el.removeChild(el.firstChild)}"
    ∷ "  function text(value){return value===undefined||value===null||value===''?'—':String(value)}"
    ∷ "  function fmtUptime(ms){" ∷ "    if(typeof ms!=='number')return '—';"
    ∷ "    var s=Math.floor(ms/1000),h=Math.floor(s/3600),m=Math.floor((s%3600)/60),sec=s%60;"
    ∷ "    return h+'h '+m+'m '+sec+'s';" ∷ "  }" ∷ "  function metricTile(label,value,status){"
    ∷ "    var art=document.createElement('article');art.className='metric';"
    ∷ "    var span=document.createElement('span');span.textContent=label;art.appendChild(span);"
    ∷ "    var strong=document.createElement('strong');strong.textContent=text(value);"
    ∷ "    if(status)strong.dataset.status=status;" ∷ "    art.appendChild(strong);"
    ∷ "    return art;" ∷ "  }" ∷ "  function renderStatus(data){"
    ∷ "    var grid=role('status-fields');clear(grid);"
    ∷ "    grid.appendChild(metricTile('Target',data.target));"
    ∷ "    grid.appendChild(metricTile('Firmware',data.firmware_version));"
    ∷ "    grid.appendChild(metricTile('Image class',data.image_class));"
    ∷ "    grid.appendChild(metricTile('Run state',data.run_state,data.run_state));"
    ∷ "    grid.appendChild(metricTile('Workload',data.workload));"
    ∷ "    grid.appendChild(metricTile('Result',data.result,data.result));"
    ∷ "    grid.appendChild(metricTile('Uptime',fmtUptime(data.uptime_ms)));"
    ∷ "    grid.appendChild(metricTile('Reset reason',data.reset_reason));"
    ∷ "    grid.appendChild(metricTile('Previous reboot run',data.previous_reboot_run_id));"
    ∷ "    var net=data.network_connected;"
    ∷ "    grid.appendChild(metricTile('Network',net===true?'connected':net===false?'disconnected':undefined,net===true?'connected':net===false?'disconnected':undefined));"
    ∷ "    grid.appendChild(metricTile('Run ID',data.run_id));"
    ∷ "    grid.appendChild(metricTile('Measurement authority',data.measurement_authority));"
    ∷ "    var heater=role('capability-heater'),fan=role('capability-fan');"
    ∷ "    if(typeof data.heater_capability==='boolean'){heater.textContent=data.heater_capability?'PRESENT':'ABSENT';heater.dataset.status=data.heater_capability?'error':'unsupported'}"
    ∷ "    if(typeof data.fan_control_capability==='boolean'){fan.textContent=data.fan_control_capability?'PRESENT':'ABSENT';fan.dataset.status=data.fan_control_capability?'error':'unsupported'}"
    ∷ "    role('identity').textContent=(data.target||'target —')+' · firmware '+(data.firmware_version||'—');"
    ∷ "  }" ∷ "  function renderSensors(data){" ∷ "    var list=role('sensor-fields');clear(list);"
    ∷ "    (data.sensors||[]).forEach(function(s){"
    ∷ "      var row=document.createElement('div');row.className='sensor-row';row.dataset.sensorId=s.id||'';"
    ∷ "      var name=document.createElement('span');name.className='sensor-name';name.textContent=s.name||s.id||'sensor';"
    ∷ "      var value=document.createElement('strong');value.className='sensor-value';"
    ∷ "      value.textContent=(s.value!==undefined&&s.value!==null)?(s.value+(s.unit?(' '+s.unit):'')):'—';"
    ∷ "      var badge=document.createElement('span');badge.className='badge';badge.dataset.status=s.status||'unavailable';badge.textContent=s.status||'unavailable';"
    ∷ "      row.appendChild(name);row.appendChild(value);row.appendChild(badge);"
    ∷ "      list.appendChild(row);" ∷ "    });" ∷ "  }" ∷ "  function renderWorkloads(data){"
    ∷ "    var list=role('workload-fields');clear(list);"
    ∷ "    (data.workloads||[]).forEach(function(w){"
    ∷ "      var chip=document.createElement('span');chip.className='badge';chip.dataset.status=w.status||'unsupported';"
    ∷ "      chip.textContent=(w.id||'workload')+' · '+(w.status||'unsupported');"
    ∷ "      list.appendChild(chip);" ∷ "    });" ∷ "  }" ∷ []

-- The part that asks for it.
unfoldable pub landing_poll : List String
landing_poll =
    "  var renderers={status:renderStatus,sensors:renderSensors,workloads:renderWorkloads};"
    ∷ "  function setError(name,message){" ∷ "    var note=role(name+'-error');if(!note)return;"
    ∷ "    if(message){note.hidden=false;note.textContent=message}else{note.hidden=true;note.textContent=''}"
    ∷ "  }" ∷ "  function poll(name){"
    ∷ "    return fetch('/api/v1/'+name,{cache:'no-store'}).then(function(res){"
    ∷ "      if(!res.ok)throw new Error('HTTP '+res.status);" ∷ "      return res.text();"
    ∷ "    }).then(function(text){" ∷ "      var data;"
    ∷ "      try{data=JSON.parse(text)}catch(e){throw new Error('malformed JSON')}"
    ∷ "      role('raw-'+name).textContent=JSON.stringify(data,null,2);"
    ∷ "      renderers[name](data);" ∷ "      setError(name,null);" ∷ "      last[name]=Date.now();"
    ∷ "    }).catch(function(err){" ∷ "      setError(name,'unreachable: '+err.message);"
    ∷ "    });" ∷ "  }"
    ∷ "  function pollAll(){Promise.allSettled(ENDPOINTS.map(poll)).then(updateFreshness)}"
    ∷ "  function updateFreshness(){" ∷ "    var badge=role('freshness');"
    ∷ "    var any=ENDPOINTS.some(function(n){return last[n]});"
    ∷ "    if(!any){badge.textContent='unreachable';badge.dataset.status='error';return}"
    ∷ "    var worst=Math.max.apply(null,ENDPOINTS.map(function(n){return last[n]?Date.now()-last[n]:Infinity}));"
    ∷ "    if(worst>STALE_MS*3){badge.textContent='stale';badge.dataset.status='error'}"
    ∷ "    else if(worst>STALE_MS){badge.textContent='stale';badge.dataset.status='stale'}"
    ∷ "    else{badge.textContent='live';badge.dataset.status='live'}" ∷ "  }" ∷ "  pollAll();"
    ∷ "  setInterval(pollAll,2000);" ∷ "  setInterval(updateFreshness,1000);" ∷ "})();"
    ∷ "</script>" ∷ "</body>" ∷ "</html>" ∷ []
