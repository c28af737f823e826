-- ===== src/Lib.antt =====
-- The L3/L4 gateway: a stateless load balancer on top of nfqlb, controllers that keep it in
-- step with the cluster, and the plug-ins that route to it.
--
-- pkg/nfqlb: a load balancer starts and drives the nfqlb process. It has named services, each
-- with a range of fwmarks, targets (an identifier and addresses) and flows.
--   Nfqlb.Config        config.go, option.go, const.go
--   Nfqlb.Offset        offset.go: where the fwmarks of a new service start
--   Nfqlb.Service, Nfqlb.Targets, Nfqlb.Flows, Nfqlb.LoadBalancer
--                       nfqlb.go: the records, and one function per method; the load
--                       balancer's calls are one data type Op, run one after the other
--   Nfqlb.Routing       routing.go: a rule and a route per fwmark and address
--   Nfqlb.Sets, Nfqlb.Netfilter
--                       set.go, and setDestinationCIDRs of netfilter.go
--   Nfqlb.Queue, Nfqlb.Nftables
--                       the table, sets, chains and rules of netfilter.go, New and Start of
--                       nfqlb.go; a batch of messages is sent at once. Nfqlb.Queue.Chains
--                       and Nfqlb.Queue.Packets have what nftables documents of a batch and of the expressions
--   Nfqlb.Utils         utils.go
--   Nfqlb.Platform      what is called and not implemented: the nfqlb binary, netlink,
--                       nftables, the JSON decoder and Go's net package, as a record of
--                       functions on a state of the host that nothing is known of
-- pkg/networking/ip.go is Net.
--
-- pkg/endpointslice and the controllers: the pods behind a service are endpoints, one slice per
-- address family; the controller manager gives each an identifier, which it keeps in the zone, and
-- the load balancer takes the endpoints of a service as its targets.
--   Endpoints           the records; endpoint/identifier.go of
--                       pkg/controllers/statelessloadbalancer
--   Endpoints.Merge     endpointslice.go, merge.go
--   Endpoints.Identifiers
--                       controllermanager/endpointslice.go: getEndpointSlicesWithIdentifiers,
--                       getIdentifier
--   Manager, Manager.Services, Manager.Flows, Manager.Targets, Manager.Slices
--                       manager.go: SetServices, SetFlows, SetEndpoints, sameStringSlice, over a
--                       load balancer that is a record of functions
--   Annotation          podinjector/network/networkattachmentannotation.go: the attachments of
--                       a pod for the addresses and gateways that it serves
--   Podinjector         podinjector/gateway.go, podinjector.go, and the annotation around Annotation
--   NetworkAttachment   pkg/networkattachment: the networks of a gateway and the addresses in them
--
-- pkg/bird, pkg/controllers/router: the router of a gateway hands the addresses of the status and
-- the GatewayRouter objects to bird, a routing daemon with a configuration file, and bird's rules
-- send what these addresses answer through its table.
--   Api                 api/v1alpha1/types.go, as far as the router reads it
--   Router, Router.Gateway
--                       router.go, enqueue.go, gateway.go
--   Bird.Gateway, Bird.Template, Bird.Configuration
--                       interfaces.go, const.go, configuration.go
--   Bird.Rules          setPolicyRoutes of network.go
--   Bird.Process        bird.go; Run is cut in two where it unlocks the mutex and waits for bird
--   Netlink             the calls of netlink of bird and of the plug-ins, as a record of functions,
--                       and what the kernel documents of them
--
-- cmd/cni, pkg/cni: two plug-ins for the network namespace of a pod. ADD stores the request in a
-- file, from which DEL takes it.
--   Cni                 the calls of the operating system, as a record of functions
--   Cni.Store           store.go
--   Cni.Command         cmdAdd and cmdDel, which are the same in both plug-ins but for the
--                       configuration and the work in the namespace
--   Cni.PolicyRoute, Cni.LoopbackVip
--                       the configuration and the work of each
--   Cni.Laws, Cni.Table what operating system and kernel document
--
-- Go's int is ℤ with sums that wrap around at 64 bits; a string is a list of bytes; a map is an
-- association list, whose order is the order of one iteration. A method is a function from the
-- state it works on to the new one; an error is a list of causes, empty for nil. A call that may
-- panic or wait for ever says so in its result. The loops are structural but for two on fuel: the
-- search for an offset, with the number of services and one more, since each round but the last
-- passes the end of a service for good, and the digits of a number n, which are at most n + 1.
--
-- The offsets of the load balancer, its numbers of targets and its fwmarks are ℕ, and their sums
-- and the product of the maximum number of targets and 100 do not wrap around: int and ℕ agree
-- as long as these stay below 2 ^ 63. Calls on the handle of a service that was deleted do
-- nothing, while a Go handle can still be called. A rule without a priority stands for the rule
-- that the kernel lists for it, with the priority that the kernel chooses.
--
-- Not modelled: logging, contexts and their cancellation, the nfqlb process that Start runs, and
-- the parsers of addresses.
--
-- Also left out are the other reconcilers, which read and write the API server.
pub mod Base
pub mod Net
pub mod Nfqlb
pub mod Endpoints
pub mod Manager
pub mod Annotation
pub mod Netlink
pub mod Bird
pub mod Api
pub mod Router
pub mod Cni
pub mod NetworkAttachment
pub mod Podinjector
