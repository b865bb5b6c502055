-- ===== src/Topology/Frr/Installer.antt =====
-- labtris_api/frr_templates.py: the script that installs a router's files, and the files as such.
use labtris.Prelude.{Text, codes, List, [], ◌∷◌, ◌++◌}
use labtris.Topology.Frr.Lines.{unlines}

-- what stands before `pre`, and before the daemons and the configuration: no last newline
abbrev pub script_head : List Text
script_head =
    codes "#!/bin/sh"
    ∷ codes "# Generated by `labtris lab generate --with-bgp-evpn`."
    ∷ codes "# Push with: labtris node push <this-node>"
    ∷ codes "# Apply with: labtris node exec <this-node> -- sh /config/startup-config"
    ∷ codes "set -e"
    ∷ []

abbrev pub script_middle : List Text
script_middle = codes "mkdir -p /etc/frr" ∷ codes "cat > /etc/frr/daemons.new <<'EOF_DAEMONS'" ∷ []

abbrev pub script_join : List Text
script_join = codes "EOF_DAEMONS" ∷ codes "cat > /etc/frr/frr.conf <<'EOF_FRR'" ∷ []

abbrev pub reload_lines : List Text
reload_lines =
    codes "# vtysh looks for this and complains on stderr for every single command when"
    ∷ codes "# it is absent:"
    ∷ codes "#"
    ∷ codes "#   % Can't open configuration file /etc/frr/vtysh.conf due to 'No such file"
    ∷ codes "#   or directory'."
    ∷ codes "#"
    ∷ codes "# Harmless, and noise on every `show` an operator runs — it also has to be"
    ∷ codes "# filtered out of anything that parses vtysh output, which is a silly thing to"
    ∷ codes "# make a caller do. integrated-vtysh-config is the mode this config already"
    ∷ codes "# assumes: one frr.conf rather than per-daemon files."
    ∷ codes "cat > /etc/frr/vtysh.conf <<'EOF_VTYSH'"
    ∷ codes "service integrated-vtysh-config"
    ∷ codes "EOF_VTYSH"
    ∷ codes "chown -R frr:frr /etc/frr 2>/dev/null || true"
    ∷ codes ""
    ∷ codes "# Restart only when a restart is actually required; otherwise reload."
    ∷ codes "#"
    ∷ codes "# This was an unconditional `frrinit.sh restart`, for a good reason: the image"
    ∷ codes "# entrypoint runs `frrinit.sh start` against a daemons file that still says"
    ∷ codes "# bgpd=no, so `start` is a no-op, bgpd never launches, and the fabric"
    ∷ codes "# generates correct config and never converges. Only a restart re-reads the"
    ∷ codes "# daemons file."
    ∷ codes "#"
    ∷ codes "# But restarting is catastrophic on a fabric that has already converged. It"
    ∷ codes "# drops every session on the node, and each drop is seen by all its peers,"
    ∷ codes "# which re-advertise to theirs. On a k=22 fat tree one edge restart touches"
    ∷ codes "# roughly 253 adjacencies, so applying config to 242 edges sixteen at a time"
    ∷ codes "# put about 4000 adjacency events in flight and pinned all 24 cores for long"
    ∷ codes "# enough to starve sshd off the box."
    ∷ codes "#"
    ∷ codes "# A restart is only needed when the daemons file itself changed — which is"
    ∷ codes "# true on the first apply and false on every one after it. So compare, and"
    ∷ codes "# reload when the daemon set is unchanged. `reload` runs frr-reload.py, which"
    ∷ codes "# diffs the running config against the new one and applies only the"
    ∷ codes "# difference: no session teardown, no reconvergence."
    ∷ codes "NEED_RESTART=no"
    ∷ codes "if ! /usr/lib/frr/frrinit.sh status >/dev/null 2>&1; then"
    ∷ codes "  # Nothing running to reload into."
    ∷ codes "  NEED_RESTART=yes"
    ∷ codes "elif ! cmp -s /etc/frr/daemons.new /etc/frr/daemons 2>/dev/null; then"
    ∷ codes "  NEED_RESTART=yes"
    ∷ codes "fi"
    ∷ codes "mv -f /etc/frr/daemons.new /etc/frr/daemons"
    ∷ codes "chown frr:frr /etc/frr/daemons 2>/dev/null || true"
    ∷ codes "if [ \"$NEED_RESTART\" = yes ]; then"
    ∷ codes "  /usr/lib/frr/frrinit.sh restart"
    ∷ codes "elif ! /usr/lib/frr/frrinit.sh reload; then"
    ∷ codes "  # frr-reload.py refuses changes it cannot express incrementally. Falling"
    ∷ codes "  # back is correct but expensive, so it says so rather than doing it quietly."
    ∷ codes "  echo \"reload declined the diff; restarting instead\" >&2"
    ∷ codes "  /usr/lib/frr/frrinit.sh restart"
    ∷ codes "fi"
    ∷ []

abbrev pub script_tail : List Text
script_tail = codes "EOF_FRR" ∷ reload_lines

-- `_frr_installer`
unfoldable pub frr_installer : Text → Text → Text → Text
unfolding unlines
frr_installer daemons frr_conf pre =
    unlines script_head
    ++ (pre
        ++ 10
          ∷ (unlines script_middle
              ++ (daemons ++ 10 ∷ (unlines script_join ++ (frr_conf ++ 10 ∷ unlines script_tail)))))

-- _FRR_DAEMONS_EVPN
unfoldable pub daemons_evpn : Text
unfolding unlines
daemons_evpn = unlines (
    codes "bgpd=yes"
    ∷ codes "ospfd=no"
    ∷ codes "ospf6d=no"
    ∷ codes "ripd=no"
    ∷ codes "ripngd=no"
    ∷ codes "isisd=no"
    ∷ codes "pimd=no"
    ∷ codes "ldpd=no"
    ∷ codes "nhrpd=no"
    ∷ codes "eigrpd=no"
    ∷ codes "babeld=no"
    ∷ codes "sharpd=no"
    ∷ codes "pbrd=no"
    ∷ codes "bfdd=no"
    ∷ codes "fabricd=no"
    ∷ codes "vrrpd=no"
    ∷ codes "pathd=no"
    ∷ codes "# No space after `=`. This file is sourced by frrinit.sh, and `VAR=  \"x\"` in"
    ∷ codes "# shell assigns VAR empty and then runs `  \"x\"` as a command — which is"
    ∷ codes "# exactly what happened:"
    ∷ codes "#"
    ∷ codes "#   /etc/frr/daemons: line 18:   -A 127.0.0.1 -s 90000000: command not found"
    ∷ codes "#   /etc/frr/daemons: line 19:   -A 127.0.0.1: command not found"
    ∷ codes "#"
    ∷ codes "# FRR started anyway, so this looked harmless, and both daemons silently ran"
    ∷ codes "# with no options at all. Losing `-A 127.0.0.1` means the VTY is not bound to"
    ∷ codes "# loopback; losing `-s 90000000` leaves zebra on the default netlink receive"
    ∷ codes "# buffer, which is the one thing a fabric with tens of thousands of"
    ∷ codes "# interfaces cannot afford — route sync starts failing under exactly the load"
    ∷ codes "# this config exists to carry."
    ∷ codes "zebra_options=\"-A 127.0.0.1 -s 90000000\""
    ∷ codes "bgpd_options=\"-A 127.0.0.1\""
    ∷ [])
