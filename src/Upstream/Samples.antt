-- ===== src/Upstream/Samples.antt =====
-- The upstream client at a concrete resolver, which truncates over UDP.
use homedns_analytics.Common.{◌≡◌, refl, true, false, none, some, ◌⊎◌}
use homedns_analytics.Messages.{PlainMsg, plain_ops}
use homedns_analytics.Upstream.{Network, udp, tcp, returned, Wire, client}
use homedns_analytics.Upstream.Fallback.{
  IsSettled, IsDirect, IsRetried, client-IsSettled, client_source,
}

abbrev short : PlainMsg
short = record { id = 1; rcode = 0; truncated = true; question_count = 1 }

abbrev long : PlainMsg
long = record { id = 1; rcode = 0; truncated = false; question_count = 1 }

abbrev resolver : Network → PlainMsg → Wire PlainMsg
resolver udp m = record { response = some short; error = none; elapsed = 20 }
resolver _ m = record { response = some long; error = none; elapsed = 50 }

retries : client plain_ops resolver long udp ≡ returned (some long) 70 none
unfolding client
retries = refl

client_source_example :
    IsDirect plain_ops resolver long udp long 70 ⊎ IsRetried plain_ops resolver long udp long 70
client_source_example = client_source plain_ops resolver long udp long 70 retries

client-IsSettled_example : IsSettled plain_ops resolver (client plain_ops resolver long tcp)
client-IsSettled_example = client-IsSettled plain_ops resolver long tcp
