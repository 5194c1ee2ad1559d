-- ===== src/CommandLine/Placed.antt =====
-- No option is ignored: with the device running, an option of another data link than the chosen one
-- was not given.
use bacnet_profile_example_b.Base.{◌≡◌, ◌≢◌, ◌⊎◌}
use bacnet_profile_example_b.Options.{DataLink, CommandLineOptions}
use bacnet_profile_example_b.CommandLine.Leaves.{Leaves}
use bacnet_profile_example_b.CommandLine.Unset.{settings}

-- The settings of the other data links, and the UDP port where it has no use, are as handed over.
pub record IsPlaced (options o : CommandLineOptions) : Type 0 where
  pub others : (l : DataLink) → l ≢ o.data_link → settings l o ≡ settings l options
  pub port :
      (o.data_link ≡ DataLink.mstp) ⊎ (o.data_link ≡ DataLink.sc) → o.udp_port ≡ options.udp_port
