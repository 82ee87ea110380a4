-- ===== src/Tests/Starts.antt =====
-- The start of the node.
use dmx_enttec_node.Prelude.{ℕ, none, false}
use dmx_enttec_node.Config.{empty}
use dmx_enttec_node.Node.Start.{Parts, start_app}
use dmx_enttec_node.Node.Start.Order.{HasStarted, start_app-HasStarted}
use dmx_enttec_node.Tests.Data.{driver, client}
use dmx_enttec_node.Tests.Sockets.{winsock, closed, idle}
use dmx_enttec_node.Tests.Artnets.{names, lib, pollers, garbage}
use dmx_enttec_node.Tests.Opening.{stack, no_params, answering, timers}
use dmx_enttec_node.Tests.Players.{handlers, loop}

abbrev parts : Parts winsock names lib driver ℕ
parts = record {
  garbage = garbage;
  pollers = pollers;
  handlers = handlers;
  timers = timers;
  fuel = 5;
  stack = stack;
  handle = 0;
  params = no_params;
  endpoint = closed;
  client = client none false;
  device = answering;
}

start_app-HasStarted_example :
    HasStarted winsock names lib driver ℕ parts loop
      (start_app winsock names lib driver ℕ empty parts loop idle).0
start_app-HasStarted_example = start_app-HasStarted winsock names lib driver ℕ parts empty loop idle
