-- ===== src/Examples/Config.antt =====
-- The theorems on the configuration of config.py and the networks of `ipaddress`, on samples.
use pondsecndr.Prelude.{◌<◌, ◌+◌, ◌*◌, ◌≡◌, ◌↔◌, refl, arith, true}
use pondsecndr.Python.Value.{null}
use pondsecndr.Python.Ipaddress.{v4, Network, overlaps, subnet_of}
use pondsecndr.Python.Ipaddress.Overlap.{Shared, overlaps_iff, overlaps_of_subnet_of}
use pondsecndr.Config.Load.{load_config}
use pondsecndr.Config.Load.Bounds.{Judged, load_config-validate_iff}
use pondsecndr.Config.Learning.{learning_status, microseconds_per_day}
use pondsecndr.Config.Learning.Period.{learning_status-active_iff}
use pondsecndr.Samples

abbrev site : Network
site = record { version = v4; network_address = 0x0a00_0000; broadcast_address = 0x0aff_ffff }

abbrev office : Network
office = record { version = v4; network_address = 0x0a01_0000; broadcast_address = 0x0a01_ffff }

overlaps_iff_example : (overlaps site office ≡ true) ↔ Shared site office
overlaps_iff_example = overlaps_iff site office (omega arith) (omega arith)

overlaps_of_subnet_of_example : overlaps office site ≡ true
unfolding subnet_of
overlaps_of_subnet_of_example = overlaps_of_subnet_of office site (omega arith) refl

load_config-validate_iff_example :
    Judged Samples.floats Samples.texts Samples.conversions null
      (load_config Samples.floats Samples.texts Samples.conversions null "start")
load_config-validate_iff_example =
    load_config-validate_iff Samples.floats Samples.texts Samples.conversions null "start"

learning_status-active_iff_example :
    ((learning_status Samples.platform.parse_datetime Samples.detection 2000).active ≡ true)
    ↔ (2000 < 1000 + 14 * microseconds_per_day)
learning_status-active_iff_example =
    learning_status-active_iff Samples.platform.parse_datetime Samples.detection 2000 1000 refl refl
      refl refl (omega arith)
