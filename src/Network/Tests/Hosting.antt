-- ===== src/Network/Tests/Hosting.antt =====
-- The theorems of the worlds at concrete inputs.
use loontail_minecraft_netwo.Prelude.{refl, arith, count_where, any}
use loontail_minecraft_netwo.Network.Worlds.Effects.{closes, step}
use loontail_minecraft_netwo.Network.Worlds.Settled.{ValidWorlds}
use loontail_minecraft_netwo.Network.Worlds.Housed.{Housed, Settled, step-Settled}
use loontail_minecraft_netwo.Network.Tests.Sample.{env, net}

net-ValidWorlds : ValidWorlds env net
unfolding count_where
net-ValidWorlds = record {
  used = (omega arith, tt);
  unique = λ id. ground arith;
  one_open = λ host. ground arith;
  bounded = ((omega arith, omega arith), tt);
}

net-Housed : Housed net
unfolding any
net-Housed = (refl, (refl, tt))

-- The host closes the world, with two tunnels in it.
step-Settled_example : Settled env (step env (closes 1 10) net)
step-Settled_example =
    step-Settled env (closes 1 10) net (record { valid = net-ValidWorlds; housed = net-Housed })
